-- ===== src/Persist/Wal/Scan.antt =====
-- The recovery scan of src/persist/wal.rs over whole logs: logs that were written whole, logs cut short
-- by a crash, and arbitrary bytes.
use orpheusgraph.Prelude.{
  ℕ, suc, ◌+◌, ◌-◌, ◌≡◌, ◌<◌, ◌≤◌, refl, sym, ap, ◌∙◌, true, false, some, List, [], ◌∷◌, ◌++◌,
  length, take, drop, arith, length-append, drop-length, append-nil, append_assoc, inl, inr,
}
use orpheusgraph.Persist.Bytes.{Bytes}
use orpheusgraph.Persist.Error.{Result, ok, err, Result-cases}
use orpheusgraph.Persist.Crc.{Crc32}
use orpheusgraph.Persist.Wal.Frame.{
  WalRecord, Postcard, ScanResult, Found, encode_frame, read_frame, scan_from, scan_wal_bytes,
}
use orpheusgraph.Persist.Wal.Frames.{read_frame-encode_frame, read_frame-torn}

-- the scan of bytes that end where a frame ends
abbrev pub whole : List WalRecord → ℕ → ScanResult
whole records n = record { records = records; valid_end = n; tail_truncated = false; dropped = 0 }

-- the scan of bytes with other bytes after the last intact frame
abbrev pub cut_off : List WalRecord → ℕ → ScanResult
cut_off records n = record { records = records; valid_end = n; tail_truncated = true; dropped = 1 }

module _ ⦃crc : Crc32⦄ ⦃pc : Postcard⦄ where
  pub read_frame-nil : read_frame [] ≡ Found.clean_end
  unfolding read_frame
  read_frame-nil = refl

module _ {E : Type 0} ⦃crc : Crc32⦄ ⦃pc : Postcard⦄ where
  -- the log that appending the frames of the records one by one leaves
  abbrev pub log_of : List WalRecord → Result E Bytes
  log_of [] = ok []
  log_of (rec ∷ recs) =
      let rest = log_of recs in
      elim (encode_frame rec) [
        | err e ↦ err e
        | ok frame ↦ elim rest [ err e ↦ err e | ok bytes ↦ ok (frame ++ bytes) ]
      ]

  -- a log with a record in front is a frame and a log
  pub log_of-split :
      (rec : WalRecord) (recs : List WalRecord) (log : Bytes)
      → log_of (rec ∷ recs) ≡ ok log
      → (frame : Bytes) × ((rest : Bytes) × ((encode_frame {E = E} rec ≡ ok frame)
            × ((log_of recs ≡ ok rest) × (log ≡ frame ++ rest))))
  log_of-split rec recs log h = elim (Result-cases (encode_frame {E = E} rec)) [
    | inl (e, r) ↦ ground (arith, h, r)
    | inr (frame, r) ↦ elim (Result-cases (log_of recs)) [
      | inl (e, q) ↦ ground (arith, h, r, q)
      | inr (rest, q) ↦ (frame, (rest, (r, (q, ground (arith, h, r, q)))))
    ]
  ]

  -- One round, by what it finds.
  pub scan_from-found :
      (rest : Bytes) (fuel offset : ℕ) (acc : List WalRecord)
      → ((read_frame rest ≡ Found.clean_end)
          → scan_from {E = E} (suc fuel) rest offset acc ≡ some (ok (whole acc offset)))
        × (((read_frame rest ≡ Found.torn)
              → scan_from {E = E} (suc fuel) rest offset acc ≡ some (ok (cut_off acc offset)))
            × ((rec : WalRecord) (n : ℕ)
                → read_frame rest ≡ Found.intact rec n
                → scan_from {E = E} (suc fuel) rest offset acc
                  ≡ scan_from fuel (drop n rest) (offset + n) (acc ++ (rec ∷ []))))
  unfolding scan_from
  scan_from-found rest fuel offset acc =
      (λ h. ground (arith, h), (λ h. ground (arith, h), λ rec n h. ground (arith, h)))

  -- One intact frame at the front takes one round.
  scan_from-frame :
      (rec : WalRecord) (frame tail : Bytes) (fuel offset : ℕ) (acc : List WalRecord)
      → encode_frame {E = E} rec ≡ ok frame
      → scan_from {E = E} (suc fuel) (frame ++ tail) offset acc
        ≡ scan_from fuel tail (offset + length frame) (acc ++ (rec ∷ []))
  scan_from-frame rec frame tail fuel offset acc h =
      (scan_from-found (frame ++ tail) fuel offset acc).1.1 rec (length frame)
        (read_frame-encode_frame rec frame tail h).0
      ∙ ap (λ bs. scan_from fuel bs (offset + length frame) (acc ++ (rec ∷ [])))
          (drop-length frame tail)

  -- The frames of a log take a round each.
  pub scan_from-log :
      (recs : List WalRecord) (log tail : Bytes) (fuel offset : ℕ) (acc : List WalRecord)
      → log_of recs ≡ ok log
      → (length recs ≤ length log)
        × (scan_from {E = E} (length recs + fuel) (log ++ tail) offset acc
            ≡ scan_from fuel tail (offset + length log) (acc ++ recs))
  scan_from-log [] log tail fuel offset acc h =
      let e : log ≡ [] = ground (arith, h) in
      let z : offset + 0 ≡ offset = omega arith in
      let f : 0 + fuel ≡ fuel = omega arith in (omega arith, rw (e, z, f, append-nil acc) refl)
  scan_from-log (rec ∷ recs) log tail fuel offset acc h =
      let (frame, (rest, (r, (q, e)))) = log_of-split rec recs log h in
      let next = scan_from-frame rec frame (rest ++ tail) (length recs + fuel) offset acc r in
      let (small, more) =
        scan_from-log recs rest tail fuel (offset + length frame) (acc ++ (rec ∷ [])) q in
      let size = length-append frame rest in
      let f : suc (length recs) + fuel ≡ suc (length recs + fuel) = omega arith in
      let o : offset + (length frame + length rest) ≡ offset + length frame + length rest =
        omega arith in
      (
        rw e (omega (arith, small, size, (read_frame-encode_frame rec frame [] r).1)),
        rw (e, f, append_assoc frame rest tail, size, o)
            (next
              ∙ more
              ∙ ap (scan_from fuel tail (offset + length frame + length rest))
                  (append_assoc acc (rec ∷ []) recs)),
      )

  -- After the frames of a log the scan goes on with what follows them, and with fuel left.
  scan_wal_bytes-append :
      (recs : List WalRecord) (log tail : Bytes)
      → log_of recs ≡ ok log
      → scan_wal_bytes {E = E} (log ++ tail)
        ≡ scan_from (suc (length log - length recs + length tail)) tail (length log) recs
  unfolding scan_wal_bytes
  scan_wal_bytes-append recs log tail h =
      let fuel = suc (length log - length recs + length tail) in
      let (small, run) = scan_from-log recs log tail fuel 0 [] h in
      let f : suc (length (log ++ tail)) ≡ length recs + fuel =
        omega (arith, length-append log tail, small) in
      let o : 0 + length log ≡ length log = omega arith in
      rw f (run ∙ ap (λ n. scan_from fuel tail n recs) o)

  -- A log that was written whole is read back: the records in order, up to its last byte, nothing
  -- dropped.
  pub scan_wal_bytes-log :
      (recs : List WalRecord) (log : Bytes)
      → log_of recs ≡ ok log
      → scan_wal_bytes {E = E} log ≡ some (ok (whole recs (length log)))
  scan_wal_bytes-log recs log h =
      ap scan_wal_bytes (sym (append-nil log))
      ∙ (scan_wal_bytes-append recs log [] h
          ∙ (scan_from-found [] (length log - length recs + 0) (length log) recs).0 read_frame-nil)

  -- A log whose last frame was cut short anywhere inside is read up to the frame before it, and the
  -- rest is reported as one dropped frame.
  pub scan_wal_bytes-torn :
      (recs : List WalRecord) (log : Bytes) (rec : WalRecord) (frame : Bytes) (k : ℕ)
      → log_of recs ≡ ok log
      → encode_frame {E = E} rec ≡ ok frame
      → 0 < k
      → k < length frame
      → scan_wal_bytes {E = E} (log ++ take k frame) ≡ some (ok (cut_off recs (length log)))
  scan_wal_bytes-torn recs log rec frame k h f lo hi =
      scan_wal_bytes-append recs log (take k frame) h
      ∙ (scan_from-found (take k frame) (length log - length recs + length (take k frame))
            (length log) recs).1.0
          (read_frame-torn rec frame k f lo hi)
