-- ===== src/Persist/Manifest.antt =====
-- src/persist/manifest.rs: the root pointer of the store, and the write of a file that a crash leaves
-- whole or absent.
pub mod Trip
use orpheusgraph.Prelude.{
  ℕ, ◌≡◌, Bool, true, false, not, String, Option, none, some, [], ◌∷◌, ◌++◌, ◌⊎◌, inl, inr, ◌==◌,
  nat_eq, if◌then◌else◌,
}
use Prim.Native.String
use orpheusgraph.Persist.Bytes.{Bytes, le_bytes, from_le}
use orpheusgraph.Persist.Crc.{Crc32}
use orpheusgraph.Persist.Error.{PersistError, Result, ok, err}
use orpheusgraph.Persist.Program.{Program, io_get, io_call, of_result, ◌>>=◌, ◌>>◌}
use orpheusgraph.Persist.Vfs.{VfsFile, Vfs}

abbrev pub format_version : ℕ
format_version = 3

pub record Manifest : Type 0 where
  pub format_version : ℕ
  pub snapshot_file : String
  pub snapshot_seq : ℕ
  pub snapshot_crc32 : ℕ
  pub compaction_id : ℕ
  pub epoch : ℕ
  pub high_seq : ℕ
  pub clean_shutdown : Bool
  pub created_by : String
  pub checksum : ℕ

-- The crate serde_json on a manifest: it reads what it has written. `as_bytes` is the UTF-8 of a text.
pub record Json : Type 0 where
  pub to_vec_pretty : Manifest → Option Bytes
  pub from_slice : Bytes → Option Manifest
  pub as_bytes : String → Bytes
  pub from_slice-to_vec_pretty :
      (m : Manifest) (bytes : Bytes) → to_vec_pretty m ≡ some bytes → from_slice bytes ≡ some m

-- The crate getrandom, asked for 16 bytes.
pub record Entropy (E D : Type 0) : Type 0 where
  pub getrandom : D → (E ⊎ Bytes) × D

module _ {E D : Type 0} where
  unfoldable pub mint_epoch : Entropy E D → Program E D ℕ
  mint_epoch rng = do buf ← io_get rng.getrandom; of_result (ok (from_le buf))

module _ ⦃crc : Crc32⦄ ⦃js : Json⦄ where
  -- the hasher is fed the fields one after the other
  unfoldable pub manifest_checksum : Manifest → ℕ
  manifest_checksum m = crc.checksum (
      le_bytes 4 m.format_version
      ++ (js.as_bytes m.snapshot_file
          ++ (le_bytes 8 m.snapshot_seq
              ++ (le_bytes 4 m.snapshot_crc32
                  ++ (le_bytes 8 m.compaction_id
                      ++ (le_bytes 16 m.epoch
                          ++ (le_bytes 8 m.high_seq
                              ++ ((if m.clean_shutdown then 1 else 0) ∷ []))))))))

  -- the checksum that is stored: 0 is kept for manifests without one
  unfoldable pub stored_checksum : ℕ → ℕ
  stored_checksum c = if c == 0 then 1 else c

  abbrev pub stamped : Manifest → Manifest
  stamped m = record m { checksum = stored_checksum (manifest_checksum m) }

  unfoldable pub parse_manifest : {E : Type 0} → Bytes → Result E Manifest
  parse_manifest bytes = elim (js.from_slice bytes) [
    | none ↦ err (PersistError.corrupt "MANIFEST parse failed")
    | some m ↦
        if m.checksum == 0
        then ok m
        else if m.checksum == manifest_checksum m
        then ok m
        else err (PersistError.corrupt "MANIFEST checksum mismatch")
  ]

module _ {E F D : Type 0} ⦃vf : VfsFile E F⦄ where
  -- The block that holds the temporary file: at its end the handle is dropped.
  unfoldable pub write_and_sync : Vfs E F D → String → Bytes → F → Program E D Unit
  write_and_sync vfs tmp bytes f d =
      let (unwritten, f1) = vf.write_all f bytes in
      elim unwritten [
        | some e ↦ (err (PersistError.io e), vfs.drop_handle tmp f1 d)
        | none ↦
            let (unsynced, f2) = vf.sync_all f1 in
            elim unsynced [
              | some e ↦ (err (PersistError.io e), vfs.drop_handle tmp f2 d)
              | none ↦ (ok tt, vfs.drop_handle tmp f2 d)
            ]
      ]

  unfoldable pub write_file_atomic : Vfs E F D → (dir name : String) → Bytes → Program E D Unit
  write_file_atomic vfs dir name bytes = do
    let tmp = vfs.join dir (Prim.Native.String.◌++◌ name ".tmp")
    let final_path = vfs.join dir name
    f ← io_get (vfs.create tmp)
    write_and_sync vfs tmp bytes f
    io_call (vfs.rename tmp final_path)
    io_call (vfs.fsync_dir dir)

module _ {E F D : Type 0} ⦃crc : Crc32⦄ ⦃js : Json⦄ ⦃vf : VfsFile E F⦄ where
  unfoldable pub write_manifest_atomic : Vfs E F D → String → Manifest → Program E D Unit
  write_manifest_atomic vfs dir manifest = elim (js.to_vec_pretty (stamped manifest)) [
    | none ↦ of_result (err (PersistError.corrupt "MANIFEST serialize failed"))
    | some json ↦ write_file_atomic vfs dir "MANIFEST.json" json
  ]

module _ {E F D : Type 0} ⦃crc : Crc32⦄ ⦃js : Json⦄ where
  unfoldable pub read_manifest : Vfs E F D → String → D → Result E Manifest
  read_manifest vfs path d = elim (vfs.read path d) [
    | inl e ↦ err (PersistError.io e)
    | inr bytes ↦ parse_manifest bytes
  ]
