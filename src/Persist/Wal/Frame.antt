-- ===== src/Persist/Wal/Frame.antt =====
-- Framing and the recovery scan of src/persist/wal.rs.
use orpheusgraph.Prelude.{
  ℕ, zero, suc, ◌+◌, ◌-◌, ◌^◌, ◌≡◌, Bool, true, false, not, Option, none, some, List, [], ◌∷◌, ◌++◌,
  ltb, length, take, drop, if◌then◌else◌, ◌==◌, nat_eq,
}
use orpheusgraph.Delta.Defs.{Op}
use orpheusgraph.Persist.Bytes.{Bytes, le_bytes, from_le}
use orpheusgraph.Persist.Error.{PersistError, Result}
use orpheusgraph.Persist.Crc.{Crc32}

pub record WalRecord : Type 0 where
  pub seq : ℕ
  pub ops : List Op

-- The crate postcard: it decodes what it has encoded.
pub record Postcard : Type 0 where
  pub to_stdvec : WalRecord → Option Bytes
  pub from_bytes : Bytes → Option WalRecord
  pub from_bytes-to_stdvec :
      (r : WalRecord) (payload : Bytes) → to_stdvec r ≡ some payload → from_bytes payload ≡ some r

pub record ScanResult : Type 0 where
  pub records : List WalRecord
  pub valid_end : ℕ
  pub tail_truncated : Bool
  pub dropped : ℕ

-- What one round of the scan finds in the bytes from the offset on.
pub data Found : Type 0 where
  clean_end : Found
  torn : Found
  undecodable : Found
  intact : WalRecord → ℕ → Found

module _ ⦃crc : Crc32⦄ where
  -- the frame of a payload: `len`, the checksum of `len` and payload, the payload
  abbrev pub framed : Bytes → Bytes
  framed payload =
      let len = le_bytes 4 (length payload) in
      len ++ (le_bytes 4 (crc.checksum (len ++ payload)) ++ payload)

module _ {E : Type 0} ⦃crc : Crc32⦄ ⦃pc : Postcard⦄ where
  unfoldable pub encode_frame : WalRecord → Result E Bytes
  encode_frame rec = elim (pc.to_stdvec rec) [
    | none ↦ Result.err (PersistError.corrupt "postcard WAL encode failed")
    | some payload ↦
        if ltb (2 ^ 32 - 1) (length payload)
        then Result.err (PersistError.corrupt "WAL frame payload exceeds u32::MAX")
        else Result.ok (framed payload)
  ]

module _ ⦃crc : Crc32⦄ ⦃pc : Postcard⦄ where
  -- One round of the loop on `rest`, the bytes `&buf[offset..]`; `remaining` is their number.
  unfoldable pub read_frame : Bytes → Found
  read_frame rest =
      let remaining = length rest in
      let len = from_le (take 4 rest) in
      let crc_stored = from_le (take 4 (drop 4 rest)) in
      let payload = take len (drop 8 rest) in
      if remaining == 0
      then Found.clean_end
      else if ltb remaining 8
      then Found.torn
      else if ltb (remaining - 8) len
      then Found.torn
      else if not (crc.checksum (le_bytes 4 len ++ payload) == crc_stored)
      then Found.torn
      else elim (pc.from_bytes payload) [
        | none ↦ Found.undecodable
        | some rec ↦ Found.intact rec (8 + len)
      ]

  -- The loop, on fuel; `none` when it runs out.
  unfoldable pub scan_from :
      {E : Type 0} → ℕ → Bytes → ℕ → List WalRecord → Option (Result E ScanResult)
  scan_from zero rest offset records = none
  scan_from (suc fuel) rest offset records = elim (read_frame rest) [
    | clean_end ↦ some (
        Result.ok
          (record { records = records; valid_end = offset; tail_truncated = false; dropped = 0 }))
    | torn ↦ some (
        Result.ok
          (record { records = records; valid_end = offset; tail_truncated = true; dropped = 1 }))
    | undecodable ↦
        some (Result.err (PersistError.corrupt "WAL frame: crc-valid but postcard decode failed"))
    | intact rec n ↦ scan_from fuel (drop n rest) (offset + n) (records ++ (rec ∷ []))
  ]

  -- A frame takes eight bytes or more, so the rounds are fewer than the bytes and one.
  unfoldable pub scan_wal_bytes : {E : Type 0} → Bytes → Option (Result E ScanResult)
  scan_wal_bytes buf = scan_from (suc (length buf)) buf 0 []
