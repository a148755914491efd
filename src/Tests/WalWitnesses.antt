-- ===== src/Tests/WalWitnesses.antt =====
-- The log of src/persist/wal.rs at concrete records, with a checksum that adds the bytes up and an
-- encoding of the records that hold no operation.
use orpheusgraph.Prelude.{
  ℕ, ◌+◌, ◌%◌, ◌^◌, ◌<◌, ◌≡◌, refl, ap, Option, none, some, List, [], ◌∷◌, ◌++◌, String, ltb, take,
  if◌then◌else◌, arith, nat_eq, Bool-cases, inl, inr,
}
use native.Mathlib.Nat.{mod-lt}
use orpheusgraph.Delta.Defs.{Op}
use orpheusgraph.Persist.Bytes.{Bytes, le_bytes, from_le, from_le-le_bytes}
use orpheusgraph.Persist.Error.{Result, ok}
use orpheusgraph.Persist.Crc.{Crc32}
use orpheusgraph.Persist.Wal.Frame.{
  WalRecord, Postcard, encode_frame, scan_wal_bytes, read_frame, scan_from,
}
use orpheusgraph.Persist.Wal.Scan.{whole, cut_off, log_of, scan_wal_bytes-log, scan_wal_bytes-torn}
use orpheusgraph.Persist.Wal.Recovery.{OkIsWithin, scan_wal_bytes-IsWithin}
use orpheusgraph.Persist.Wal.Resume.{scan_wal_bytes-recovered}

abbrev pub sum : Bytes → ℕ
sum [] = 0
sum (b ∷ bs) = (b + sum bs) % 256 ^ 4

pub sum-lt : (bs : Bytes) → sum bs < 256 ^ 4
sum-lt [] = omega arith
sum-lt (b ∷ bs) = mod-lt (b + sum bs) (omega arith)

instance abbrev pub additive : Crc32
additive = record { checksum = sum; checksum-lt = sum-lt }

abbrev pub empty : ℕ → WalRecord
empty seq = record { seq = seq; ops = [] }

abbrev pub encode : WalRecord → Option Bytes
encode rec = elim rec.ops [
  | [] ↦ if ltb rec.seq (256 ^ 8) then some (le_bytes 8 rec.seq) else none
  | op ∷ ops ↦ none
]

pub encode-decodes :
    (seq : ℕ) (ops : List Op) (payload : Bytes)
    → encode (record { seq = seq; ops = ops }) ≡ some payload
    → some (empty (from_le payload)) ≡ some (record { seq = seq; ops = ops })
encode-decodes seq [] payload h = elim (Bool-cases (ltb seq (256 ^ 8))) [
  | inl r ↦
      let e : payload ≡ le_bytes 8 seq = ground (arith, h, r) in
      rw e (ap (λ s. some (empty s)) (from_le-le_bytes 8 seq (ground (arith, r))))
  | inr r ↦ ground (arith, h, r)
]
encode-decodes seq (op ∷ ops) payload h = ground (arith, h)

instance abbrev pub small_records : Postcard
small_records = record {
  to_stdvec = encode;
  from_bytes = λ payload. some (empty (from_le payload));
  from_bytes-to_stdvec = λ rec payload h. encode-decodes rec.seq rec.ops payload h;
}

abbrev pub frame : ℕ → Bytes
frame seq = 8 ∷ 0 ∷ 0 ∷ 0 ∷ (8 + seq) ∷ 0 ∷ 0 ∷ 0 ∷ seq ∷ 0 ∷ 0 ∷ 0 ∷ 0 ∷ 0 ∷ 0 ∷ 0 ∷ []

encode_empty : encode_frame {E = String} (empty 9) ≡ ok (frame 9)
unfolding encode_frame
encode_empty = refl

pub encode_log : log_of {E = String} (empty 7 ∷ empty 8 ∷ []) ≡ ok (frame 7 ++ frame 8)
unfolding encode_frame
encode_log = refl

scan_wal_bytes-log_example :
    scan_wal_bytes {E = String} (frame 7 ++ frame 8) ≡ some (ok (whole (empty 7 ∷ empty 8 ∷ []) 32))
scan_wal_bytes-log_example =
    scan_wal_bytes-log (empty 7 ∷ empty 8 ∷ []) (frame 7 ++ frame 8) encode_log

scan_wal_bytes-torn_example :
    scan_wal_bytes {E = String} ((frame 7 ++ frame 8) ++ take 11 (frame 9))
    ≡ some (ok (cut_off (empty 7 ∷ empty 8 ∷ []) 32))
scan_wal_bytes-torn_example =
    scan_wal_bytes-torn (empty 7 ∷ empty 8 ∷ []) (frame 7 ++ frame 8) (empty 9) (frame 9) 11
      encode_log encode_empty (omega arith) (omega arith)

scan_wal_bytes-IsWithin_example :
    (result : Result String _) × ((scan_wal_bytes (frame 7 ++ (1 ∷ 2 ∷ [])) ≡ some result)
      × OkIsWithin 18 result)
scan_wal_bytes-IsWithin_example = scan_wal_bytes-IsWithin (frame 7 ++ (1 ∷ 2 ∷ []))

damaged :
    scan_wal_bytes {E = String} (frame 7 ++ (1 ∷ 2 ∷ [])) ≡ some (ok (cut_off (empty 7 ∷ []) 16))
unfolding scan_wal_bytes scan_from read_frame
damaged = refl

scan_wal_bytes-recovered_example :
    scan_wal_bytes {E = String} (take 16 (frame 7 ++ (1 ∷ 2 ∷ [])) ++ (frame 7 ++ frame 8))
    ≡ some (ok (whole (empty 7 ∷ empty 7 ∷ empty 8 ∷ []) 48))
scan_wal_bytes-recovered_example =
    scan_wal_bytes-recovered (frame 7 ++ (1 ∷ 2 ∷ [])) (cut_off (empty 7 ∷ []) 16)
      (empty 7 ∷ empty 8 ∷ []) (frame 7 ++ frame 8) damaged encode_log
