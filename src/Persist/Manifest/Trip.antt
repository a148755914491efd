-- ===== src/Persist/Manifest/Trip.antt =====
-- A manifest that src/persist/manifest.rs has written, read again.
use orpheusgraph.Prelude.{
  ◌≡◌, refl, sym, ap, ◌∙◌, false, String, some, arith, ◌==◌, nat_eq, inl, inr, Option-cases,
  if◌then◌else◌, length, [], ◌∷◌, suc, ◌+◌, append-nil,
}
use Prim.Native.String
use orpheusgraph.Persist.Bytes.{Bytes}
use orpheusgraph.Persist.Crc.{Crc32}
use orpheusgraph.Persist.Error.{PersistError, Result, ok, err}
use orpheusgraph.Persist.Program.{
  and_then-Ran, io_get-ok, io_call-ok, io_call_state, io_get, io_call,
}
use orpheusgraph.Persist.Vfs.{VfsFile, Vfs, IsFileSystem, write_at}
use orpheusgraph.Persist.Manifest.{
  Manifest, Json, stored_checksum, manifest_checksum, stamped, parse_manifest, write_and_sync,
  write_file_atomic, write_manifest_atomic, read_manifest,
}

write_at_start : (bytes : Bytes) → write_at [] 0 bytes ≡ bytes
unfolding write_at
write_at_start [] = refl
write_at_start (b ∷ bs) =
    let n : 0 + suc (length bs) ≡ suc (length bs) = omega arith in
    rw n (ap (λ t. b ∷ t) (append-nil bs))

module _ {E F D : Type 0} ⦃vf : VfsFile E F⦄ where
  write_and_sync-ok :
      (vfs : Vfs E F D) (law : IsFileSystem vf vfs) (tmp : String) (bytes : Bytes) (f : F) (d : D)
      → vf.contents f ≡ []
      → vf.position f ≡ 0
      → vf.appends f ≡ false
      → (write_and_sync vfs tmp bytes f d).0 ≡ ok tt
      → law.bytes_of (write_and_sync vfs tmp bytes f d).1 tmp ≡ some bytes
  unfolding write_and_sync
  write_and_sync-ok vfs law tmp bytes f d c p a h =
      let f1 = (vf.write_all f bytes).1 in
      elim (Option-cases (vf.write_all f bytes).0) [
        | inr (e, r) ↦ ground (arith, h, r)
        | inl r ↦
            let w : vf.contents f1 ≡ bytes =
              ground (arith, vf.write_all-contents f bytes r, a, c, p, write_at_start bytes) in
            elim (Option-cases (vf.sync_all f1).0) [
              | inr (e, q) ↦ ground (arith, h, r, q)
              | inl q ↦
                  let e : (write_and_sync vfs tmp bytes f d).1
                      ≡ vfs.drop_handle tmp (vf.sync_all f1).1 d =
                    ground (arith, r, q) in
                  rw e (
                    law.drop_handle-bytes tmp (vf.sync_all f1).1 d
                    ∙ ap some (vf.sync_all-contents f1 q ∙ w))
            ]
      ]

  -- After a write that reports success the file holds the bytes.
  pub write_file_atomic-bytes :
      (vfs : Vfs E F D) (law : IsFileSystem vf vfs) (dir name : String) (bytes : Bytes) (d : D)
      → (write_file_atomic vfs dir name bytes d).0 ≡ ok tt
      → law.bytes_of (write_file_atomic vfs dir name bytes d).1 (vfs.join dir name) ≡ some bytes
  unfolding write_file_atomic
  write_file_atomic-bytes vfs law dir name bytes d h =
      let tmp = vfs.join dir (Prim.Native.String.◌++◌ name ".tmp") in
      let final_path = vfs.join dir name in
      let made = and_then-Ran (io_get (vfs.create tmp) d) _ tt h in
      let (opened, made_state) = io_get-ok (vfs.create tmp) d made.state made.value made.first in
      let (empty, (start, plain)) = law.create-fresh tmp d made.value opened in
      let written =
        and_then-Ran (write_and_sync vfs tmp bytes made.value made.state) _ tt made.rest in
      let moved =
        and_then-Ran (io_call (vfs.rename tmp final_path) written.state) _ tt written.rest in
      let (renamed, moved_state) =
        io_call-ok (vfs.rename tmp final_path) written.state moved.state moved.value moved.first in
      let on_tmp : law.bytes_of written.state tmp ≡ some bytes =
        ap (λ o. law.bytes_of o.1 tmp) (sym written.first)
        ∙ write_and_sync-ok vfs law tmp bytes made.value made.state empty start plain
            (ap (λ o. o.0) written.first) in
      let on_final : law.bytes_of moved.state final_path ≡ some bytes =
        ap (λ t. law.bytes_of t final_path) (sym moved_state)
        ∙ (law.rename-bytes tmp final_path written.state renamed ∙ on_tmp) in
      let ends : (write_file_atomic vfs dir name bytes d).1 ≡ (vfs.fsync_dir dir moved.state).1 =
        ap (λ o. o.1) (made.whole ∙ (written.whole ∙ moved.whole))
        ∙ io_call_state (vfs.fsync_dir dir) moved.state in
      ap (λ t. law.bytes_of t final_path) ends
      ∙ (law.fsync_dir-bytes dir final_path moved.state ∙ on_final)

module _ ⦃crc : Crc32⦄ ⦃js : Json⦄ where
  checksum_stamped : (m : Manifest) → manifest_checksum (stamped m) ≡ manifest_checksum m
  unfolding manifest_checksum
  checksum_stamped m = refl

  -- how the bytes of a stamped manifest are read
  abbrev pub reading : (E : Type 0) → Manifest → Result E Manifest
  reading E m =
      if manifest_checksum m == 0
      then err (PersistError.corrupt "MANIFEST checksum mismatch")
      else ok (stamped m)

  parse_stamped :
      (E : Type 0) (m : Manifest) (json : Bytes)
      → js.to_vec_pretty (stamped m) ≡ some json
      → parse_manifest {E = E} json ≡ reading E m
  unfolding parse_manifest stored_checksum
  parse_stamped E m json h =
      let r = js.from_slice-to_vec_pretty (stamped m) json h in
      let c = checksum_stamped m in ground (arith, r, c)

module _ {E F D : Type 0} ⦃crc : Crc32⦄ ⦃js : Json⦄ ⦃vf : VfsFile E F⦄ where
  -- A manifest whose write reports success is what a read of the file then answers, with its checksum
  -- filled in, unless the checksum of its fields is 0: then the read answers that it is corrupt.
  pub read_manifest-write_manifest_atomic :
      (vfs : Vfs E F D) (law : IsFileSystem vf vfs) (dir : String) (m : Manifest) (d : D)
      (bytes : Bytes)
      → (write_manifest_atomic vfs dir m d).0 ≡ ok tt
      → vfs.read (vfs.join dir "MANIFEST.json") (write_manifest_atomic vfs dir m d).1 ≡ inr bytes
      → read_manifest vfs (vfs.join dir "MANIFEST.json") (write_manifest_atomic vfs dir m d).1
        ≡ reading E m
  unfolding write_manifest_atomic read_manifest
  read_manifest-write_manifest_atomic vfs law dir m d bytes h r =
      elim (Option-cases (js.to_vec_pretty (stamped m))) [
        | inl q ↦ ground (arith, h, q)
        | inr (json, q) ↦
            let path = vfs.join dir "MANIFEST.json" in
            let e : write_manifest_atomic vfs dir m d
                ≡ write_file_atomic vfs dir "MANIFEST.json" json d =
              ground (arith, q) in
            let stored =
              write_file_atomic-bytes vfs law dir "MANIFEST.json" json d
                (ap (λ o. o.0) (sym e) ∙ h) in
            let same : some bytes ≡ some json =
              sym (law.read-bytes path (write_manifest_atomic vfs dir m d).1 bytes r)
              ∙ (ap (λ o. law.bytes_of o.1 path) e ∙ stored) in
            let b : bytes ≡ json = ground (arith, same) in
            ground (arith, r, b, parse_stamped E m json q)
      ]
