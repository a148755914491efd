-- ===== src/Persist/Commit/File.antt =====
-- `CommitFile` of src/persist/commit.rs. `path` is `dir.join(COMMIT_FILE)`.
use orpheusgraph.Prelude.{
  ℕ, ◌+◌, ◌-◌, ◌*◌, ◌%◌, ◌^◌, Option, none, some, String, if◌then◌else◌, inl, inr,
}
use orpheusgraph.Persist.Bytes.{Bytes}
use orpheusgraph.Persist.Crc.{Crc32}
use orpheusgraph.Persist.Error.{PersistError, Result, ok, err}
use orpheusgraph.Persist.Vfs.{VfsFile, Vfs}
use orpheusgraph.Persist.Commit.Slot.{CommitRecord, slot_size, encode_slot}
use orpheusgraph.Persist.Commit.Select.{select}

pub record CommitFile (F : Type 0) : Type 0 where
  pub file : F
  pub next_slot : ℕ
  pub next_gen : ℕ

module _ {E F : Type 0} ⦃crc : Crc32⦄ ⦃vf : VfsFile E F⦄ where
  -- `seek`, `write_all`, `sync_all`, each with its `?`
  unfoldable pub write_slot : F → ℕ → Bytes → Option (PersistError E) × F
  write_slot file offset slot =
      let (e1, f1) = vf.seek file offset in
      elim e1 [
        | some e ↦ (some (PersistError.io e), f1)
        | none ↦
            let (e2, f2) = vf.write_all f1 slot in
            elim e2 [
              | some e ↦ (some (PersistError.io e), f2)
              | none ↦
                  let (e3, f3) = vf.sync_all f2 in
                  elim e3 [ some e ↦ (some (PersistError.io e), f3) | none ↦ (none, f3) ]
            ]
      ]

  unfoldable pub advance : CommitFile F → ℕ → ℕ → Option (PersistError E) × CommitFile F
  advance c epoch committed_seq =
      let rec : CommitRecord = record {
        epoch = epoch;
        committed_seq = committed_seq;
        gen = c.next_gen;
      } in
      let (failed, f) = write_slot c.file (c.next_slot * slot_size) (encode_slot rec) in
      elim failed [
        | some e ↦ (some e, record c { file = f })
        | none ↦ (
          none,
          record { file = f; next_slot = 1 - c.next_slot; next_gen = (c.next_gen + 1) % 2 ^ 64 },
        )
      ]

  -- from `seek` on, with the file that it leaves
  unfoldable pub read_commit : F → Result E (CommitRecord × CommitFile F) × F
  read_commit file =
      let (e1, f1) = vf.seek file 0 in
      elim e1 [
        | some e ↦ (Result.err (PersistError.io e), f1)
        | none ↦
            let (e2, (buf, f2)) = vf.read_to_end f1 in
            elim e2 [
              | some e ↦ (Result.err (PersistError.io e), f2)
              | none ↦ elim (select buf) [
                | none ↦
                    (Result.err (PersistError.corrupt "COMMIT sidecar has no crc-valid slot"), f2)
                | some (rec, chosen) ↦ (
                  Result.ok (
                    rec,
                    record { file = f2; next_slot = 1 - chosen; next_gen = (rec.gen + 1) % 2 ^ 64 },
                  ),
                  f2,
                )
              ]
            ]
      ]

module _ {E F D : Type 0} ⦃crc : Crc32⦄ ⦃vf : VfsFile E F⦄ where
  unfoldable pub create : Vfs E F D → String → String → ℕ → ℕ → D → Result E (CommitFile F) × D
  create vfs path dir epoch committed_seq d =
      let (made, d1) = vfs.create path d in
      elim made [
        | inl e ↦ (Result.err (PersistError.io e), d1)
        | inr file ↦
            let (failed, f) =
              write_slot file 0
                (encode_slot (record { epoch = epoch; committed_seq = committed_seq; gen = 0 })) in
            elim failed [
              | some e ↦ (Result.err e, vfs.drop_handle path f d1)
              | none ↦
                  let (unsynced, d2) = vfs.fsync_dir dir d1 in
                  elim unsynced [
                    | some e ↦ (Result.err (PersistError.io e), vfs.drop_handle path f d2)
                    | none ↦ (Result.ok (record { file = f; next_slot = 1; next_gen = 1 }), d2)
                  ]
            ]
      ]

  unfoldable pub open_commit : Vfs E F D → String → D → Result E (CommitRecord × CommitFile F) × D
  open_commit vfs path d =
      let (opened, d1) = vfs.open_rw path d in
      elim opened [
        | inl e ↦ (
          Result.err (
              if vfs.is_not_found e
              then PersistError.corrupt "COMMIT sidecar missing"
              else PersistError.io e),
          d1,
        )
        | inr file ↦
            let (r, f) = read_commit file in
            elim r [ err e ↦ (Result.err e, vfs.drop_handle path f d1) | ok c ↦ (Result.ok c, d1) ]
      ]
