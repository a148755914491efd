-- ===== src/Persist/Vfs.antt =====
-- src/persist/vfs.rs: the traits `VfsFile` and `Vfs`, and the calls of `std::fs` that src/persist
-- makes beside them.
use orpheusgraph.Prelude.{
  ℕ, ◌+◌, ◌-◌, ◌≡◌, ◌≢◌, ◌≤◌, Bool, true, false, Option, none, some, List, [], ◌++◌, length, take,
  drop, replicate, String, ◌⊎◌, inr, if◌then◌else◌,
}
use orpheusgraph.Persist.Bytes.{Bytes}
use orpheusgraph.Traversal.Lists.{All}

-- The bytes of a file after a seek to `pos` and a whole write: a gap before it is filled with zeros.
unfoldable pub write_at : Bytes → ℕ → Bytes → Bytes
write_at buf pos bytes =
    (take pos buf ++ replicate (pos - length buf) 0) ++ (bytes ++ drop (pos + length bytes) buf)

-- The trait `VfsFile`, implemented by a file system. `F` is an open file, with the bytes it holds, its
-- position, whether it was opened to append, and the bytes it held at its last sync that succeeded: where
-- nothing was written since, a crash of the machine leaves those. `E` is the I/O error, and `none` is success. A call
-- that fails leaves any file. A file opened to append is written at its end.
pub record VfsFile (E F : Type 0) : Type 0 where
  pub read_to_end : F → Option E × (Bytes × F)
  pub write_all : F → Bytes → Option E × F
  pub seek : F → ℕ → Option E × F
  pub sync_all : F → Option E × F
  pub set_len : F → ℕ → Option E × F
  pub len : F → Option E × (ℕ × F)
  pub contents : F → Bytes
  pub synced : F → Bytes
  pub position : F → ℕ
  pub appends : F → Bool
  pub seek-contents :
      (f : F) (pos : ℕ) → (seek f pos).0 ≡ none → contents (seek f pos).1 ≡ contents f
  pub seek-position : (f : F) (pos : ℕ) → (seek f pos).0 ≡ none → position (seek f pos).1 ≡ pos
  pub seek-appends : (f : F) (pos : ℕ) → appends (seek f pos).1 ≡ appends f
  pub write_all-contents :
      (f : F) (bytes : Bytes)
      → (write_all f bytes).0 ≡ none
      → contents (write_all f bytes).1
        ≡ (if appends f then contents f ++ bytes else write_at (contents f) (position f) bytes)
  pub write_all-appends : (f : F) (bytes : Bytes) → appends (write_all f bytes).1 ≡ appends f
  pub sync_all-contents : (f : F) → (sync_all f).0 ≡ none → contents (sync_all f).1 ≡ contents f
  pub sync_all-synced : (f : F) → (sync_all f).0 ≡ none → synced (sync_all f).1 ≡ contents f
  pub write_all-synced :
      (f : F) (bytes : Bytes)
      → (write_all f bytes).0 ≡ none
      → synced (write_all f bytes).1 ≡ synced f
  pub sync_all-appends : (f : F) → appends (sync_all f).1 ≡ appends f
  pub set_len-contents :
      (f : F) (size : ℕ)
      → (set_len f size).0 ≡ none
      → size ≤ length (contents f)
      → contents (set_len f size).1 ≡ take size (contents f)
  pub set_len-appends : (f : F) (size : ℕ) → appends (set_len f size).1 ≡ appends f
  pub len-contents :
      (f : F)
      → (len f).0 ≡ none
      → ((len f).1.0 ≡ length (contents f)) × (contents (len f).1.1 ≡ contents f)
  pub len-appends : (f : F) → appends (len f).1.1 ≡ appends f
  pub read_to_end-contents :
      (f : F)
      → (read_to_end f).0 ≡ none
      → ((read_to_end f).1.0 ≡ drop (position f) (contents f))
        × (contents (read_to_end f).1.1 ≡ contents f)
  pub read_to_end-appends : (f : F) → appends (read_to_end f).1.1 ≡ appends f

-- The trait `Vfs`, and the calls of `std::fs` on whole files. `D` is the disk, with the files on which
-- no handle is open, by path. A handle that goes out of scope (`drop`) leaves its bytes on the disk.
pub record Vfs (E F D : Type 0) : Type 0 where
  pub create : String → D → (E ⊎ F) × D
  pub open_rw : String → D → (E ⊎ F) × D
  pub open_append : String → D → (E ⊎ F) × D
  pub rename : (from to : String) → D → Option E × D
  pub remove_file : String → D → Option E × D
  pub fsync_dir : String → D → Option E × D
  pub drop_handle : String → F → D → D
  pub read : String → D → E ⊎ Bytes
  pub exists : String → D → Bool
  pub read_dir : String → D → E ⊎ List String
  pub create_dir_all : String → D → Option E × D
  pub join : String → String → String
  -- `e.kind() == ErrorKind::NotFound`
  pub is_not_found : E → Bool

-- What the store relies on of a file system: a file that was created is empty, one that is opened has
-- the bytes it was left with, a rename moves them, a directory lists names of files, and the removal of a
-- file of a directory leaves those of other names in it. A name of a file is one component of a path: it
-- has no separator, and is neither `.` nor `..`.
pub record IsFileSystem {E F D : Type 0} (vf : VfsFile E F) (vfs : Vfs E F D) : Type 0 where
  pub bytes_of : D → String → Option Bytes
  pub create-fresh :
      (p : String) (d : D) (f : F)
      → (vfs.create p d).0 ≡ inr f
      → (vf.contents f ≡ []) × ((vf.position f ≡ 0) × (vf.appends f ≡ false))
  pub drop_handle-bytes :
      (p : String) (f : F) (d : D) → bytes_of (vfs.drop_handle p f d) p ≡ some (vf.contents f)
  pub rename-bytes :
      (from to : String) (d : D)
      → (vfs.rename from to d).0 ≡ none
      → bytes_of (vfs.rename from to d).1 to ≡ bytes_of d from
  pub fsync_dir-bytes : (dir p : String) (d : D) → bytes_of (vfs.fsync_dir dir d).1 p ≡ bytes_of d p
  pub read-bytes :
      (p : String) (d : D) (bytes : Bytes) → vfs.read p d ≡ inr bytes → bytes_of d p ≡ some bytes
  pub is_file_name : String → Bool
  pub read_dir-names :
      (dir : String) (d : D) (names : List String)
      → vfs.read_dir dir d ≡ inr names
      → All (λ name. is_file_name name ≡ true) names
  pub remove_file-others :
      (dir name other : String) (d : D)
      → is_file_name name ≡ true
      → is_file_name other ≡ true
      → name ≢ other
      → bytes_of (vfs.remove_file (vfs.join dir name) d).1 (vfs.join dir other)
        ≡ bytes_of d (vfs.join dir other)
