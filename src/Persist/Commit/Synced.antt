-- ===== src/Persist/Commit/Synced.antt =====
-- The writes of src/persist/commit.rs reach the disk before they answer.
use orpheusgraph.Prelude.{ℕ, ◌*◌, ◌≡◌, sym, ap, ◌∙◌, none, arith, Option-cases, inl, inr}
use orpheusgraph.Persist.Bytes.{Bytes}
use orpheusgraph.Persist.Crc.{Crc32}
use orpheusgraph.Persist.Vfs.{VfsFile}
use orpheusgraph.Persist.Commit.Slot.{slot_size, encode_slot}
use orpheusgraph.Persist.Commit.File.{CommitFile, write_slot, advance}

module _ (E : Type 0) {F : Type 0} ⦃crc : Crc32⦄ ⦃vf : VfsFile E F⦄ where
  write_slot-synced :
      (file : F) (offset : ℕ) (slot : Bytes)
      → (write_slot {E = E} file offset slot).0 ≡ none
      → vf.synced (write_slot {E = E} file offset slot).1
        ≡ vf.contents (write_slot {E = E} file offset slot).1
  unfolding write_slot
  write_slot-synced file offset slot h =
      let f1 = (vf.seek file offset).1 in
      let f2 = (vf.write_all f1 slot).1 in
      elim (Option-cases (vf.seek file offset).0) [
        | inr (e, r) ↦ ground (arith, h, r)
        | inl r ↦ elim (Option-cases (vf.write_all f1 slot).0) [
          | inr (e, q) ↦ ground (arith, h, r, q)
          | inl q ↦ elim (Option-cases (vf.sync_all f2).0) [
            | inr (e, p) ↦ ground (arith, h, r, q, p)
            | inl p ↦
                let last : (write_slot {E = E} file offset slot).1 ≡ (vf.sync_all f2).1 =
                  ground (arith, r, q, p) in
                ap vf.synced last
                ∙ (vf.sync_all-synced f2 p
                    ∙ (sym (vf.sync_all-contents f2 p) ∙ ap vf.contents (sym last)))
          ]
        ]
      ]

  -- An `advance` that succeeds has synced the sidecar.
  pub advance-synced :
      (c : CommitFile F) (epoch committed_seq : ℕ)
      → (advance {E = E} c epoch committed_seq).0 ≡ none
      → vf.synced (advance {E = E} c epoch committed_seq).1.file
        ≡ vf.contents (advance {E = E} c epoch committed_seq).1.file
  unfolding advance
  advance-synced c epoch committed_seq h =
      let slot =
        encode_slot (record { epoch = epoch; committed_seq = committed_seq; gen = c.next_gen }) in
      elim (Option-cases (write_slot {E = E} c.file (c.next_slot * slot_size) slot).0) [
        | inr (e, r) ↦ ground (arith, h, r)
        | inl r ↦ rw (r, advance) (write_slot-synced c.file (c.next_slot * slot_size) slot r)
      ]
