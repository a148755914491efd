-- ===== src/Tests/ManifestWitnesses.antt =====
-- The manifest of src/persist/manifest.rs, written and read on a disk in memory.
use orpheusgraph.Traversal.Lists.{All}
use orpheusgraph.Prelude.{
  List, filter, Bool-cases, inl, ◌≢◌, sym, ◌∙◌, string_eq, nat_eq, ◌==◌, ◌&&◌, ◌≡◌, refl, ap, Bool,
  true, false, not, Option, none, some, [], ◌∷◌, String, arith, inl, inr, ℕ, if◌then◌else◌,
  Bool-cases,
}
use orpheusgraph.HashMap
use orpheusgraph.Persist.Bytes.{Bytes}
use orpheusgraph.Persist.Error.{ok}
use orpheusgraph.Persist.Vfs.{IsFileSystem, write_at}
use orpheusgraph.Persist.Manifest.{
  Manifest, Json, manifest_checksum, stored_checksum, write_and_sync, write_file_atomic,
  write_manifest_atomic, read_manifest,
}
use orpheusgraph.Persist.Manifest.Trip.{reading, read_manifest-write_manifest_atomic}
use orpheusgraph.Tests.WalWitnesses.{additive}
use orpheusgraph.Tests.MemoryFile.{in_memory}
use orpheusgraph.Tests.MemoryDisk.{Disk, renamed, found, memory_disk}

abbrev pub manifest : ℕ → Manifest
manifest checksum = record {
  format_version = 3;
  snapshot_file = "snapshot-folded.og";
  snapshot_seq = 7;
  snapshot_crc32 = 3;
  compaction_id = 1;
  epoch = 3;
  high_seq = 7;
  clean_shutdown = false;
  created_by = "orpheusgraph";
  checksum = checksum;
}

-- the numbers of the manifest above, and any checksum
abbrev pub is_known : Manifest → Bool
is_known m =
    m.format_version == 3
    && m.snapshot_seq == 7
    && m.snapshot_crc32 == 3
    && m.compaction_id == 1
    && m.epoch == 3
    && m.high_seq == 7
    && not m.clean_shutdown
    && m.snapshot_file == "snapshot-folded.og"
    && m.created_by == "orpheusgraph"

abbrev pub decode : Bytes → Option Manifest
decode [] = none
decode (c ∷ cs) = some (manifest c)

pub known : (m : Manifest) → is_known m ≡ true → manifest m.checksum ≡ m
known m h =
    let f = string_eq.beq_iff m.snapshot_file "snapshot-folded.og" in
    let c = string_eq.beq_iff m.created_by "orpheusgraph" in ground (arith, h, f, c)

pub encode-decode :
    (m : Manifest) (bytes : Bytes)
    → (if is_known m then some (m.checksum ∷ []) else none) ≡ some bytes
    → decode bytes ≡ some m
encode-decode m bytes h = elim (Bool-cases (is_known m)) [
  | inl r ↦ let e : bytes ≡ m.checksum ∷ [] = ground (arith, h, r) in rw e (ap some (known m r))
  | inr r ↦ ground (arith, h, r)
]

instance abbrev pub one_manifest : Json
one_manifest = record {
  to_vec_pretty = λ m. if is_known m then some (m.checksum ∷ []) else none;
  from_slice = decode;
  as_bytes = λ text. [];
  from_slice-to_vec_pretty = encode-decode;
}

pub rename-law :
    (to : String) (o : Option Bytes) (d : Disk)
    → (renamed to o d).0 ≡ none
    → HashMap.get (renamed to o d).1 to ≡ o
rename-law to none d h = ground (arith, h)
rename-law to (some b) d h = ground (arith, HashMap.get-insert d to b to, string_eq.beq_iff to to)

pub read-law : (o : Option Bytes) (bytes : Bytes) → found o ≡ inr bytes → o ≡ some bytes
read-law none bytes h = ground (arith, h)
read-law (some b) bytes h = ground (arith, h)

pub all_names : (names : List String) → All (λ name. true ≡ true) names
all_names [] = tt
all_names (n ∷ ns) = (refl, all_names ns)

pub find-filter :
    (name other : String) (files : List (String × Bytes))
    → name ≢ other
    → HashMap.get (record { pairs = filter (λ f. not (f.0 == name)) files }) other
      ≡ HashMap.get (record { pairs = files }) other
unfolding HashMap.get HashMap.find
find-filter name other [] h = refl
find-filter name other (f ∷ fs) h = elim (Bool-cases (f.0 == name)) [
  | inl r ↦
      let same : f.0 ≡ name = (string_eq.beq_iff f.0 name).0 r in
      elim (Bool-cases (f.0 == other)) [
        | inl q ↦ absurd (h (sym same ∙ (string_eq.beq_iff f.0 other).0 q))
        | inr q ↦ rw (r, q) (find-filter name other fs h)
      ]
  | inr r ↦ ground (arith, r, find-filter name other fs h)
]

abbrev pub memory_laws : IsFileSystem in_memory memory_disk
memory_laws = record {
  bytes_of = λ d p. HashMap.get d p;
  create-fresh = λ p d f h. ground (arith, h);
  drop_handle-bytes =
      λ p f d. ground (arith, HashMap.get-insert d p f.bytes p, string_eq.beq_iff p p);
  rename-bytes = λ from to d h. rename-law to (HashMap.get d from) d h;
  fsync_dir-bytes = λ dir p d. refl;
  read-bytes = λ p d bytes h. read-law (HashMap.get d p) bytes h;
  is_file_name = λ name. true;
  read_dir-names = λ dir d names h. all_names names;
  remove_file-others = λ dir name other d n o h. find-filter name other d.pairs h;
}

abbrev disk : Disk
disk = HashMap.new

written : (write_manifest_atomic memory_disk "store" (manifest 0) disk).0 ≡ ok tt
unfolding write_manifest_atomic write_file_atomic write_and_sync manifest_checksum stored_checksum
    HashMap.get HashMap.insert HashMap.find HashMap.put
written = refl

bytes_read :
    memory_disk.read "MANIFEST.json" (write_manifest_atomic memory_disk "store" (manifest 0) disk).1
    ≡ inr (24 ∷ [])
unfolding write_manifest_atomic write_file_atomic write_and_sync manifest_checksum stored_checksum
    HashMap.get HashMap.insert HashMap.find HashMap.put write_at
bytes_read = refl

read_manifest-write_manifest_atomic_example :
    read_manifest memory_disk "MANIFEST.json"
      (write_manifest_atomic memory_disk "store" (manifest 0) disk).1
    ≡ reading String (manifest 0)
read_manifest-write_manifest_atomic_example =
    read_manifest-write_manifest_atomic memory_disk memory_laws "store" (manifest 0) disk (24 ∷ [])
      written bytes_read
