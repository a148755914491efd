-- ===== src/Persist/Wal/Resume.antt =====
-- The log that recovery leaves, cut at `valid_end` by the recovery of src/persist, and appended to.
use orpheusgraph.Prelude.{
  ℕ, zero, suc, ◌+◌, ◌-◌, ◌≡◌, ◌≤◌, refl, sym, ap, ◌∙◌, none, some, List, [], ◌∷◌, ◌++◌, length,
  take, drop, arith, length-append, length-take, length-drop, drop-take, take-add, append-nil,
  append_assoc,
}
use orpheusgraph.Persist.Bytes.{Bytes}
use orpheusgraph.Persist.Error.{ok}
use orpheusgraph.Persist.Crc.{Crc32}
use orpheusgraph.Persist.Wal.Frame.{
  WalRecord, Postcard, ScanResult, Found, read_frame, scan_from, scan_wal_bytes,
}
use orpheusgraph.Persist.Wal.Frames.{read_frame-take}
use orpheusgraph.Persist.Wal.Scan.{whole, log_of, scan_from-found, scan_from-log, read_frame-nil}
use orpheusgraph.Persist.Wal.Recovery.{
  at_end, at_tear, at_damage, at_frame, read_frame-Round, damage,
}

module _ ⦃crc : Crc32⦄ ⦃pc : Postcard⦄ where
  -- The intact part of what a scan read, and a run over it in front of any other bytes.
  record Resumes (E : Type 0) (rest : Bytes) (offset : ℕ) (acc : List WalRecord) (r : ScanResult)
      : Type 0 where
    pub rounds : ℕ
    pub from : offset ≤ r.valid_end
    pub upto : r.valid_end ≤ offset + length rest
    pub few : rounds ≤ r.valid_end - offset
    pub go :
        (fuel : ℕ) (tail : Bytes)
        → scan_from {E = E} (rounds + fuel) (take (r.valid_end - offset) rest ++ tail) offset acc
          ≡ scan_from fuel tail r.valid_end r.records

module _ {E : Type 0} ⦃crc : Crc32⦄ ⦃pc : Postcard⦄ where
  stops :
      (rest : Bytes) (offset : ℕ) (acc : List WalRecord) (r : ScanResult)
      → offset ≡ r.valid_end
      → acc ≡ r.records
      → Resumes E rest offset acc r
  stops rest offset acc r ev er =
      let z : r.valid_end - offset ≡ 0 = omega (arith, ev) in
      record {
        rounds = 0;
        from = omega (arith, ev);
        upto = omega (arith, ev);
        few = omega arith;
        go = λ fuel tail. let f : 0 + fuel ≡ fuel = omega arith in rw (z, f, ev, er) refl;
      }

  goes_on :
      (rest : Bytes) (offset : ℕ) (acc : List WalRecord) (r : ScanResult) (rec : WalRecord) (n : ℕ)
      → read_frame rest ≡ Found.intact rec n
      → Resumes E (drop n rest) (offset + n) (acc ++ (rec ∷ [])) r
      → Resumes E rest offset acc r
  goes_on rest offset acc r rec n h i =
      let fits = (read_frame-take rest [] rec n h).0 in
      let large = (read_frame-take rest [] rec n h).1.0 in
      let m = r.valid_end - (offset + n) in
      let split : r.valid_end - offset ≡ n + m = omega (arith, i.from) in
      record {
        rounds = suc i.rounds;
        from = omega (arith, i.from);
        upto = omega (arith, i.upto, length-drop n rest, fits);
        few = omega (arith, i.few, i.from, large);
        go = λ fuel tail.
            let f : suc i.rounds + fuel ≡ suc (i.rounds + fuel) = omega arith in
            let others = take m (drop n rest) ++ tail in
            rw
              (
                f,
                split,
                take-add n m rest fits,
                append_assoc (take n rest) (take m (drop n rest)) tail,
              )
              ((scan_from-found (take n rest ++ others) (i.rounds + fuel) offset acc).1.1 rec n
                  (read_frame-take rest others rec n h).1.1
                ∙ (ap (λ bs. scan_from (i.rounds + fuel) bs (offset + n) (acc ++ (rec ∷ [])))
                      (drop-take n rest others fits)
                    ∙ i.go fuel tail));
      }

  no_fuel :
      (rest : Bytes) (offset : ℕ) (acc : List WalRecord)
      → scan_from {E = E} 0 rest offset acc ≡ none
  unfolding scan_from
  no_fuel rest offset acc = refl

  scan_from-Resumes :
      (fuel : ℕ) (rest : Bytes) (offset : ℕ) (acc : List WalRecord) (r : ScanResult)
      → scan_from {E = E} fuel rest offset acc ≡ some (ok r)
      → Resumes E rest offset acc r
  scan_from-Resumes zero rest offset acc r h = ground (arith, h, no_fuel rest offset acc)
  scan_from-Resumes (suc fuel) rest offset acc r h =
      elim (read_frame-Round rest (read_frame rest) refl) [
        | at_end e ↦
            let q = sym ((scan_from-found {E = E} rest fuel offset acc).0 e) ∙ h in
            stops rest offset acc r (ground (arith, q)) (ground (arith, q))
        | at_tear e ↦
            let q = sym ((scan_from-found {E = E} rest fuel offset acc).1.0 e) ∙ h in
            stops rest offset acc r (ground (arith, q)) (ground (arith, q))
        | at_damage e ↦ let q = sym (damage rest fuel offset acc e) ∙ h in ground (arith, q)
        | at_frame rec n e ↦ goes_on rest offset acc r rec n e (
            scan_from-Resumes fuel (drop n rest) (offset + n) (acc ++ (rec ∷ [])) r
              (sym ((scan_from-found rest fuel offset acc).1.1 rec n e) ∙ h))
      ]

  -- Recovery leaves a log that goes on: whatever the bytes were, cut at the end that the scan reports
  -- and with the frames of more records appended, they scan to the records recovered and then those
  -- appended, with nothing dropped.
  pub scan_wal_bytes-recovered :
      (buf : Bytes) (r : ScanResult) (recs : List WalRecord) (log : Bytes)
      → scan_wal_bytes {E = E} buf ≡ some (ok r)
      → log_of {E = E} recs ≡ ok log
      → scan_wal_bytes {E = E} (take r.valid_end buf ++ log)
        ≡ some (ok (whole (r.records ++ recs) (r.valid_end + length log)))
  unfolding scan_wal_bytes
  scan_wal_bytes-recovered buf r recs log h hl =
      let i = scan_from-Resumes (suc (length buf)) buf 0 [] r h in
      let bytes = take r.valid_end buf ++ log in
      let fuel = length bytes - i.rounds - length recs in
      let (small, run) = scan_from-log recs log [] (suc fuel) r.valid_end r.records hl in
      let z : r.valid_end - 0 ≡ r.valid_end = omega arith in
      let f : suc (length bytes) ≡ i.rounds + (length recs + suc fuel) = omega (
        arith,
        length-append (take r.valid_end buf) log,
        length-take r.valid_end buf (omega (arith, i.upto)),
        i.few,
        small,
      ) in
      let rounds = i.rounds + (length recs + suc fuel) in
      rw f (
        ap (λ k. scan_from {E = E} rounds (take k buf ++ log) 0 []) (sym z)
        ∙ (i.go (length recs + suc fuel) log
            ∙ (ap (λ bs. scan_from (length recs + suc fuel) bs r.valid_end r.records)
                  (sym (append-nil log))
                ∙ (run
                    ∙ (scan_from-found [] fuel (r.valid_end + length log) (r.records ++ recs)).0
                        read_frame-nil))))
