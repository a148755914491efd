-- ===== src/Tests/MemoryFile.antt =====
-- A file held in memory, that refuses its first syncs, for the runs of src/persist.
use orpheusgraph.Prelude.{
  arith, ℕ, zero, suc, ◌+◌, ◌≡◌, refl, Bool, Option, none, some, String, drop, take, length, ◌++◌,
  if◌then◌else◌,
}
use orpheusgraph.Persist.Bytes.{Bytes}
use orpheusgraph.Persist.Vfs.{VfsFile, write_at}

pub record MemoryFile : Type 0 where
  pub bytes : Bytes
  pub on_disk : Bytes
  pub pos : ℕ
  pub append_mode : Bool
  pub refusals : ℕ

abbrev pub sync : (refusals : ℕ) → MemoryFile → Option String × MemoryFile
sync zero f = (none, record f { on_disk = f.bytes })
sync (suc k) f = (some "refused", record f { refusals = k })

pub sync-contents : (k : ℕ) (f : MemoryFile) → (sync k f).0 ≡ none → (sync k f).1.bytes ≡ f.bytes
sync-contents zero f h = refl
sync-contents (suc k) f h = refl

pub sync-on_disk : (k : ℕ) (f : MemoryFile) → (sync k f).0 ≡ none → (sync k f).1.on_disk ≡ f.bytes
sync-on_disk zero f h = refl
sync-on_disk (suc k) f h = ground (arith, h)

pub sync-appends : (k : ℕ) (f : MemoryFile) → (sync k f).1.append_mode ≡ f.append_mode
sync-appends zero f = refl
sync-appends (suc k) f = refl

instance abbrev pub in_memory : VfsFile String MemoryFile
in_memory = record {
  read_to_end = λ f. (none, (drop f.pos f.bytes, f));
  write_all = λ f bytes. (
    none,
    record f {
      bytes = if f.append_mode then f.bytes ++ bytes else write_at f.bytes f.pos bytes;
      pos = f.pos + length bytes;
    },
  );
  seek = λ f pos. (none, record f { pos = pos });
  sync_all = λ f. sync f.refusals f;
  set_len = λ f size. (none, record f { bytes = take size f.bytes });
  len = λ f. (none, (length f.bytes, f));
  contents = λ f. f.bytes;
  synced = λ f. f.on_disk;
  position = λ f. f.pos;
  appends = λ f. f.append_mode;
  seek-contents = λ f pos h. refl;
  seek-position = λ f pos h. refl;
  seek-appends = λ f pos. refl;
  write_all-contents = λ f bytes h. refl;
  write_all-appends = λ f bytes. refl;
  sync_all-contents = λ f h. sync-contents f.refusals f h;
  sync_all-synced = λ f h. sync-on_disk f.refusals f h;
  write_all-synced = λ f bytes h. refl;
  sync_all-appends = λ f. sync-appends f.refusals f;
  set_len-contents = λ f size h l. refl;
  set_len-appends = λ f size. refl;
  len-contents = λ f h. (refl, refl);
  len-appends = λ f. refl;
  read_to_end-contents = λ f h. (refl, refl);
  read_to_end-appends = λ f. refl;
}
