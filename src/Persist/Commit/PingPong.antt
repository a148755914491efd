-- ===== src/Persist/Commit/PingPong.antt =====
-- The ping-pong of src/persist/commit.rs: what a reopened sidecar reads after writes, whole or torn.
use orpheusgraph.Prelude.{
  ℕ, ◌+◌, ◌-◌, ◌*◌, ◌^◌, ◌≡◌, ◌<◌, ◌≤◌, refl, ap, ◌∙◌, false, none, some, length, arith,
  Option-cases, inl, inr,
}
use native.Mathlib.Nat.{mod-eq_of_lt}
use orpheusgraph.Persist.Bytes.{Bytes}
use orpheusgraph.Persist.Crc.{Crc32}
use orpheusgraph.Persist.Vfs.{VfsFile, write_at}
use orpheusgraph.Persist.Commit.Slot.{
  CommitRecord, slot_size, encode_slot, decode_slot, decode_slot-encode_slot, length-encode_slot,
}
use orpheusgraph.Persist.Commit.Select.{
  select, choose_newer, choose_single, other_slot, select-write_at,
}
use orpheusgraph.Persist.Commit.File.{CommitFile, write_slot, advance}

-- The fields fit the words of a slot.
pub record Fits (rec : CommitRecord) : Type 0 where
  pub gen : rec.gen < 256 ^ 8
  pub epoch : rec.epoch < 256 ^ 16
  pub committed_seq : rec.committed_seq < 256 ^ 8

module _ ⦃crc : Crc32⦄ where
  -- A torn write is harmless: whatever 44 bytes without a valid checksum stand in the slot that was
  -- being written, the record that the file held is still the one that is read.
  pub select-torn :
      (buf junk : Bytes) (rec : CommitRecord) (chosen : ℕ)
      → select buf ≡ some (rec, chosen)
      → length junk ≡ slot_size
      → decode_slot junk ≡ none
      → select (write_at buf (other_slot chosen) junk) ≡ some (rec, chosen)
  select-torn buf junk rec chosen h e d = elim (select-write_at buf junk rec chosen h e) [
    | inl (c, s) ↦ s ∙ rw (d, c) (choose_single rec).0
    | inr (c, s) ↦ s ∙ rw (d, c) (choose_single rec).1
  ]

  -- A whole write of a later record is the one that is read, in the slot that was written.
  pub select-encode_slot :
      (buf : Bytes) (rec new : CommitRecord) (chosen : ℕ)
      → select buf ≡ some (rec, chosen)
      → rec.gen < new.gen
      → Fits new
      → select (write_at buf (other_slot chosen) (encode_slot new)) ≡ some (new, 1 - chosen)
  select-encode_slot buf rec new chosen h later fits =
      let d = decode_slot-encode_slot new fits.gen fits.epoch fits.committed_seq in
      elim (select-write_at buf (encode_slot new) rec chosen h (length-encode_slot new)) [
        | inl (c, s) ↦ s ∙ rw (d, c) (choose_newer rec new later).0
        | inr (c, s) ↦ s ∙ rw (d, c) (choose_newer rec new later).1
      ]

module _ (E : Type 0) {F : Type 0} ⦃crc : Crc32⦄ ⦃vf : VfsFile E F⦄ where
  -- The file holds `rec` as the record to trust, and the writer stands on the other slot.
  pub record IsPositioned (c : CommitFile F) (rec : CommitRecord) : Type 0 where
    pub chosen : ℕ
    pub holds : select (vf.contents c.file) ≡ some (rec, chosen)
    pub other : c.next_slot ≡ 1 - chosen
    pub low : chosen ≤ 1
    pub next : c.next_gen ≡ rec.gen + 1
    pub plain : vf.appends c.file ≡ false

module _ (E : Type 0) {F : Type 0} ⦃crc : Crc32⦄ ⦃vf : VfsFile E F⦄ where
  write_slot-appends :
      (file : F) (offset : ℕ) (slot : Bytes)
      → vf.appends (write_slot {E = E} file offset slot).1 ≡ vf.appends file
  unfolding write_slot
  write_slot-appends file offset slot =
      let f1 = (vf.seek file offset).1 in
      let f2 = (vf.write_all f1 slot).1 in
      let s = vf.seek-appends file offset in
      let w = vf.write_all-appends f1 slot in
      elim (Option-cases (vf.seek file offset).0) [
        | inr (e, r) ↦ ground (arith, r, s)
        | inl r ↦ elim (Option-cases (vf.write_all f1 slot).0) [
          | inr (e, q) ↦ ground (arith, r, q, s, w)
          | inl q ↦ elim (Option-cases (vf.sync_all f2).0) [
            | inr (e, p) ↦ ground (arith, r, q, p, s, w, vf.sync_all-appends f2)
            | inl p ↦ ground (arith, r, q, p, s, w, vf.sync_all-appends f2)
          ]
        ]
      ]

module _ {E F : Type 0} ⦃crc : Crc32⦄ ⦃vf : VfsFile E F⦄ where
  write_slot-contents :
      (file : F) (offset : ℕ) (slot : Bytes)
      → vf.appends file ≡ false
      → (write_slot {E = E} file offset slot).0 ≡ none
      → vf.contents (write_slot {E = E} file offset slot).1
        ≡ write_at (vf.contents file) offset slot
  unfolding write_slot
  write_slot-contents file offset slot plain h =
      let f1 = (vf.seek file offset).1 in
      let f2 = (vf.write_all f1 slot).1 in
      elim (Option-cases (vf.seek file offset).0) [
        | inr (e, r) ↦ ground (arith, h, r)
        | inl r ↦ elim (Option-cases (vf.write_all f1 slot).0) [
          | inr (e, q) ↦ ground (arith, h, r, q)
          | inl q ↦ elim (Option-cases (vf.sync_all f2).0) [
            | inr (e, p) ↦ ground (arith, h, r, q, p)
            | inl p ↦
                let kept : vf.appends f1 ≡ false = vf.seek-appends file offset ∙ plain in
                let written : vf.contents f2 ≡ write_at (vf.contents f1) (vf.position f1) slot =
                  ground (arith, vf.write_all-contents f1 slot q, kept) in
                let last : (write_slot {E = E} file offset slot).1 ≡ (vf.sync_all f2).1 =
                  ground (arith, r, q, p) in
                ap vf.contents last
                ∙ (vf.sync_all-contents f2 p
                    ∙ (written
                        ∙ rw (vf.seek-contents file offset r, vf.seek-position file offset r) refl))
          ]
        ]
      ]

  -- After a successful `advance` the file holds the record that was asked for, one `gen` later, and the
  -- writer stands on the slot that the record before it is in.
  pub advance-IsPositioned :
      (c : CommitFile F) (rec : CommitRecord) (epoch committed_seq : ℕ)
      → IsPositioned E c rec
      → Fits (record { epoch = epoch; committed_seq = committed_seq; gen = c.next_gen })
      → c.next_gen + 1 < 2 ^ 64
      → (advance {E = E} c epoch committed_seq).0 ≡ none
      → IsPositioned E
          (advance {E = E} c epoch committed_seq).1
          (record { epoch = epoch; committed_seq = committed_seq; gen = c.next_gen })
  unfolding advance
  advance-IsPositioned c rec epoch committed_seq p fits room h =
      let new : CommitRecord = record {
        epoch = epoch;
        committed_seq = committed_seq;
        gen = c.next_gen;
      } in
      let w = write_slot {E = E} c.file (c.next_slot * slot_size) (encode_slot new) in
      elim (Option-cases w.0) [
        | inr (e, r) ↦ ground (arith, h, r)
        | inl r ↦
            rw (r, advance)
              (record {
                chosen = 1 - p.chosen;
                holds =
                    ap select (
                      write_slot-contents c.file (c.next_slot * slot_size) (encode_slot new) p.plain
                        r)
                    ∙ (ap
                          (λ n.
                            select
                              (write_at (vf.contents c.file) (n * slot_size) (encode_slot new)))
                          p.other
                        ∙ select-encode_slot (vf.contents c.file) rec new p.chosen p.holds
                            (omega (arith, p.next)) fits);
                other = omega (arith, p.other, p.low);
                low = omega arith;
                next = mod-eq_of_lt room;
                plain = write_slot-appends E c.file _ _ ∙ p.plain;
              })
      ]
