-- ===== src/Persist/Wal/Recovery.antt =====
-- The recovery scan of src/persist/wal.rs on arbitrary bytes, and the log that recovery leaves.
use orpheusgraph.Prelude.{
  subst, ℕ, zero, suc, ◌+◌, ◌≡◌, ◌<◌, ◌≤◌, refl, ◌∙◌, some, List, [], ◌∷◌, ◌++◌, ltb, length, take,
  drop, arith, length-drop, Option-cases, inl, inr, if◌then◌else◌,
}
use orpheusgraph.Persist.Bytes.{Bytes, from_le}
use orpheusgraph.Persist.Error.{PersistError, Result, ok, err}
use orpheusgraph.Persist.Crc.{Crc32}
use orpheusgraph.Persist.Wal.Frame.{
  WalRecord, Postcard, ScanResult, Found, read_frame, scan_from, scan_wal_bytes,
}
use orpheusgraph.Persist.Wal.Frames.{read_frame-take}
use orpheusgraph.Persist.Wal.Scan.{whole, cut_off, scan_from-found}

-- The end of the intact part lies in the buffer, and the flags tell whether it is the buffer's end.
pub record IsWithin (total : ℕ) (r : ScanResult) : Type 0 where
  pub end_le : r.valid_end ≤ total
  pub flag : r.tail_truncated ≡ ltb r.valid_end total
  pub lost : r.dropped ≡ (if r.tail_truncated then 1 else 0)

module _ {E : Type 0} where
  -- a result that is no error keeps the bounds
  abbrev pub OkIsWithin : ℕ → Result E ScanResult → Type 0
  OkIsWithin total (ok r) = IsWithin total r
  OkIsWithin total (err e) = Unit

module _ ⦃crc : Crc32⦄ ⦃pc : Postcard⦄ where
  read_frame-sizes :
      (rest : Bytes)
      → ((read_frame rest ≡ Found.clean_end) → length rest ≡ 0)
        × ((read_frame rest ≡ Found.torn) → 0 < length rest)
  unfolding read_frame
  read_frame-sizes rest =
      elim (Option-cases (pc.from_bytes (take (from_le (take 4 rest)) (drop 8 rest)))) [
        | inl r ↦ (λ h. ground (arith, h, r), λ h. ground (arith, h, r))
        | inr (v, r) ↦ (λ h. ground (arith, h, r), λ h. ground (arith, h, r))
      ]

  -- What a round finds, with the equation.
  pub data Round (rest : Bytes) : Type 0 where
    at_end : read_frame rest ≡ Found.clean_end → Round rest
    at_tear : read_frame rest ≡ Found.torn → Round rest
    at_damage : read_frame rest ≡ Found.undecodable → Round rest
    at_frame : (rec : WalRecord) (n : ℕ) → read_frame rest ≡ Found.intact rec n → Round rest

  pub read_frame-Round : (rest : Bytes) (f : Found) → read_frame rest ≡ f → Round rest
  read_frame-Round rest Found.clean_end h = Round.at_end h
  read_frame-Round rest Found.torn h = Round.at_tear h
  read_frame-Round rest Found.undecodable h = Round.at_damage h
  read_frame-Round rest (Found.intact rec n) h = Round.at_frame rec n h

  -- a run that ends, inside the bytes it was given
  record Ends (E : Type 0) (rest : Bytes) (fuel offset : ℕ) (acc : List WalRecord) : Type 0 where
    pub result : Result E ScanResult
    pub run : scan_from {E = E} fuel rest offset acc ≡ some result
    pub within : OkIsWithin (offset + length rest) result

module _ {E : Type 0} ⦃crc : Crc32⦄ ⦃pc : Postcard⦄ where
  pub damage :
      (rest : Bytes) (fuel offset : ℕ) (acc : List WalRecord)
      → read_frame rest ≡ Found.undecodable
      → scan_from {E = E} (suc fuel) rest offset acc
        ≡ some (err (PersistError.corrupt "WAL frame: crc-valid but postcard decode failed"))
  unfolding scan_from
  damage rest fuel offset acc h = ground (arith, h)

  scan_from-Ends :
      (fuel : ℕ) (rest : Bytes) (offset : ℕ) (acc : List WalRecord)
      → length rest < fuel
      → Ends E rest fuel offset acc
  scan_from-Ends zero rest offset acc h = ground (arith, h)
  scan_from-Ends (suc fuel) rest offset acc h =
      elim (read_frame-Round rest (read_frame rest) refl) [
        | at_end r ↦ record {
          result = ok (whole acc offset);
          run = (scan_from-found rest fuel offset acc).0 r;
          within = record {
            end_le = omega arith;
            flag = ground (arith, (read_frame-sizes rest).0 r);
            lost = refl;
          };
        }
        | at_tear r ↦ record {
          result = ok (cut_off acc offset);
          run = (scan_from-found rest fuel offset acc).1.0 r;
          within = record {
            end_le = omega arith;
            flag = ground (arith, (read_frame-sizes rest).1 r);
            lost = refl;
          };
        }
        | at_damage r ↦ record { result = _; run = damage rest fuel offset acc r; within = tt }
        | at_frame rec n r ↦
            let (fits, (large, again)) = read_frame-take rest [] rec n r in
            let i =
              scan_from-Ends fuel (drop n rest) (offset + n) (acc ++ (rec ∷ []))
                (omega (arith, length-drop n rest, fits, large, h)) in
            let e : offset + n + length (drop n rest) ≡ offset + length rest =
              omega (arith, length-drop n rest, fits) in
            record {
              result = i.result;
              run = (scan_from-found rest fuel offset acc).1.1 rec n r ∙ i.run;
              within = subst (λ k. OkIsWithin k i.result) e i.within;
            }
      ]

  -- The scan ends on any bytes; when it is no error, the intact part ends inside them, and the flags
  -- are set exactly when bytes are left behind it.
  pub scan_wal_bytes-IsWithin :
      (buf : Bytes)
      → (result : Result E ScanResult) × ((scan_wal_bytes buf ≡ some result)
          × OkIsWithin (length buf) result)
  unfolding scan_wal_bytes
  scan_wal_bytes-IsWithin buf =
      let i = scan_from-Ends (suc (length buf)) buf 0 [] (omega arith) in
      let e : 0 + length buf ≡ length buf = omega arith in
      (i.result, (i.run, subst (λ k. OkIsWithin k i.result) e i.within))
