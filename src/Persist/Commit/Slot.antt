-- ===== src/Persist/Commit/Slot.antt =====
-- The slots of src/persist/commit.rs, encoded and decoded.
use orpheusgraph.Prelude.{
  ℕ, ◌^◌, ◌≡◌, ◌<◌, refl, Bool, true, false, not, ◌&&◌, Option, none, some, [], ◌∷◌, ◌++◌, ltb,
  length, take, drop, if◌then◌else◌, ◌==◌, nat_eq, arith,
}
use orpheusgraph.Persist.Bytes.{Bytes, le_bytes, from_le, from_le-le_bytes}
use orpheusgraph.Persist.Crc.{Crc32}

-- `OGCM`
abbrev pub magic : Bytes
magic = 79 ∷ 71 ∷ 67 ∷ 77 ∷ []

abbrev pub commit_version : ℕ
commit_version = 1

abbrev pub content_len : ℕ
content_len = 40

abbrev pub slot_size : ℕ
slot_size = 44

abbrev pub file_size : ℕ
file_size = 88

pub record CommitRecord : Type 0 where
  pub epoch : ℕ
  pub committed_seq : ℕ
  pub gen : ℕ

-- The slot up to its checksum.
abbrev pub content_of : CommitRecord → Bytes
content_of rec =
    magic
    ++ (le_bytes 4 commit_version
        ++ (le_bytes 8 rec.gen ++ (le_bytes 16 rec.epoch ++ le_bytes 8 rec.committed_seq)))

-- Equality of two slices.
abbrev pub bytes_beq : Bytes → Bytes → Bool
bytes_beq [] [] = true
bytes_beq [] (b ∷ bs) = false
bytes_beq (a ∷ xs) [] = false
bytes_beq (a ∷ xs) (b ∷ bs) = a == b && bytes_beq xs bs

module _ ⦃crc : Crc32⦄ where
  unfoldable pub encode_slot : CommitRecord → Bytes
  encode_slot rec = content_of rec ++ le_bytes 4 (crc.checksum (content_of rec))

  unfoldable pub decode_slot : Bytes → Option CommitRecord
  decode_slot bytes =
      if ltb (length bytes) slot_size
      then none
      else if not (bytes_beq (take 4 bytes) magic)
      then none
      else if not (from_le (take 4 (drop 4 bytes)) == commit_version)
      then none
      else if not (crc.checksum (take content_len bytes) == from_le (take 4 (drop 40 bytes)))
      then none
      else some (record {
        epoch = from_le (take 16 (drop 16 bytes));
        committed_seq = from_le (take 8 (drop 32 bytes));
        gen = from_le (take 8 (drop 8 bytes));
      })

  -- A slot whose fields fit their words (`u64`, `u128`, `u64`) is read back.
  pub decode_slot-encode_slot :
      (rec : CommitRecord)
      → rec.gen < 256 ^ 8
      → rec.epoch < 256 ^ 16
      → rec.committed_seq < 256 ^ 8
      → decode_slot (encode_slot rec) ≡ some rec
  unfolding decode_slot encode_slot
  decode_slot-encode_slot rec hg he hs = ground (
    arith,
    from_le-le_bytes 8 rec.gen hg,
    from_le-le_bytes 16 rec.epoch he,
    from_le-le_bytes 8 rec.committed_seq hs,
    from_le-le_bytes 4 (crc.checksum (content_of rec)) (crc.checksum-lt (content_of rec)),
  )

  pub length-encode_slot : (rec : CommitRecord) → length (encode_slot rec) ≡ slot_size
  unfolding encode_slot
  length-encode_slot rec = refl
