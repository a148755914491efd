-- ===== src/Tests/MemoryDisk.antt =====
-- A disk held in memory, for the runs of src/persist.
use orpheusgraph.Prelude.{
  map, filter, not, ◌==◌, string_eq, Bool, true, false, Option, none, some, [], String, ◌⊎◌, inl,
  inr, is_some,
}
use orpheusgraph.HashMap
use orpheusgraph.HashMap.{HashMap}
use orpheusgraph.Persist.Bytes.{Bytes}
use orpheusgraph.Persist.Vfs.{Vfs}
use orpheusgraph.Tests.MemoryFile.{MemoryFile, in_memory}

abbrev pub Disk : Type 0
Disk = HashMap String Bytes

abbrev pub opened : Bool → Option Bytes → String ⊎ MemoryFile
opened append_mode none = inl "not found"
opened append_mode (some b) =
    inr (record { bytes = b; on_disk = b; pos = 0; append_mode = append_mode; refusals = 0 })

abbrev pub renamed : String → Option Bytes → Disk → Option String × Disk
renamed to none d = (some "not found", d)
renamed to (some b) d = (none, HashMap.insert d to b)

abbrev pub found : Option Bytes → String ⊎ Bytes
found none = inl "not found"
found (some b) = inr b

abbrev pub without : String → Disk → Disk
without p d = record { pairs = filter (λ f. not (f.0 == p)) d.pairs }

abbrev pub memory_disk : Vfs String MemoryFile Disk
memory_disk = record {
  create = λ p d. (
    inr (record { bytes = []; on_disk = []; pos = 0; append_mode = false; refusals = 0 }),
    HashMap.insert d p [],
  );
  open_rw = λ p d. (opened false (HashMap.get d p), d);
  open_append = λ p d. (opened true (HashMap.get d p), d);
  rename = λ from to d. renamed to (HashMap.get d from) d;
  remove_file = λ p d. (none, without p d);
  fsync_dir = λ dir d. (none, d);
  drop_handle = λ p f d. HashMap.insert d p f.bytes;
  read = λ p d. found (HashMap.get d p);
  exists = λ p d. is_some (HashMap.get d p);
  read_dir = λ dir d. inr (map (λ f. f.0) d.pairs);
  create_dir_all = λ dir d. (none, d);
  join = λ dir name. name;
  is_not_found = λ e. true;
}
