-- ===== src/Tests/CommitWitnesses.antt =====
-- The COMMIT sidecar of src/persist/commit.rs in a file system that never fails.
use orpheusgraph.Prelude.{◌≡◌, refl, false, none, some, String, replicate, arith, nat_eq}
use orpheusgraph.Persist.Crc.{Crc32}
use orpheusgraph.Tests.MemoryFile.{MemoryFile, in_memory}
use orpheusgraph.Persist.Vfs.{write_at}
use orpheusgraph.Persist.Commit.Slot.{
  CommitRecord, encode_slot, decode_slot, decode_slot-encode_slot,
}
use orpheusgraph.Persist.Commit.Select.{select, choose, get}
use orpheusgraph.Persist.Commit.File.{CommitFile, write_slot, advance}
use orpheusgraph.Persist.Commit.PingPong.{
  Fits, IsPositioned, select-torn, select-encode_slot, advance-IsPositioned,
}

instance abbrev constant : Crc32
constant = record { checksum = λ bs. 5; checksum-lt = λ bs. omega arith }

abbrev first : CommitRecord
first = record { epoch = 3; committed_seq = 8; gen = 0 }

abbrev second : CommitRecord
second = record { epoch = 3; committed_seq = 9; gen = 1 }

decode_slot-encode_slot_example : decode_slot (encode_slot second) ≡ some second
decode_slot-encode_slot_example =
    decode_slot-encode_slot second (omega arith) (omega arith) (omega arith)

created : select (encode_slot first) ≡ some (first, 0)
unfolding select choose get encode_slot decode_slot
created = refl

second-Fits : Fits second
second-Fits = record { gen = omega arith; epoch = omega arith; committed_seq = omega arith }

zeros : decode_slot (replicate 44 0) ≡ none
unfolding decode_slot
zeros = refl

select-torn_example : select (write_at (encode_slot first) 44 (replicate 44 0)) ≡ some (first, 0)
select-torn_example = select-torn (encode_slot first) (replicate 44 0) first 0 created refl zeros

select-encode_slot_example :
    select (write_at (encode_slot first) 44 (encode_slot second)) ≡ some (second, 1)
select-encode_slot_example =
    select-encode_slot (encode_slot first) first second 0 created (omega arith) second-Fits

abbrev writer : CommitFile MemoryFile
writer = record {
  file = record {
    bytes = encode_slot first;
    on_disk = encode_slot first;
    pos = 44;
    append_mode = false;
    refusals = 0;
  };
  next_slot = 1;
  next_gen = 1;
}

writer-IsPositioned : IsPositioned String writer first
writer-IsPositioned = record {
  chosen = 0;
  holds = created;
  other = refl;
  low = omega arith;
  next = refl;
  plain = refl;
}

no_failure : (advance {E = String} writer 3 9).0 ≡ none
unfolding advance write_slot
no_failure = refl

advance-IsPositioned_example : IsPositioned String (advance {E = String} writer 3 9).1 second
advance-IsPositioned_example =
    advance-IsPositioned writer first 3 9 writer-IsPositioned second-Fits (omega arith) no_failure
