-- ===== src/Persist/Wal/Frames.antt =====
-- What one round of the scan of src/persist/wal.rs reads: a frame that `encode_frame` wrote, a frame
-- cut short, and a frame with other bytes after it.
use orpheusgraph.Prelude.{
  ℕ, suc, ◌+◌, ◌-◌, ◌^◌, ◌≡◌, ◌<◌, ◌≤◌, ap, ◌∙◌, some, ◌++◌, ltb, length, take, drop, nat_eq, arith,
  length-append, take-length, length-take, length-drop, take_prefix, drop_prefix, Bool-cases,
  Option-cases, inl, inr,
}
use orpheusgraph.Persist.Bytes.{Bytes, le_bytes, from_le, from_le-le_bytes}
use orpheusgraph.Persist.Error.{Result}
use orpheusgraph.Persist.Crc.{Crc32}
use orpheusgraph.Persist.Wal.Frame.{WalRecord, Postcard, Found, framed, encode_frame, read_frame}

module _ ⦃crc : Crc32⦄ ⦃pc : Postcard⦄ where
  -- `rec` is encoded by the bytes `frame`, and `payload` is what they hold.
  pub record IsFrameOf (rec : WalRecord) (frame payload : Bytes) : Type 0 where
    pub is_framed : frame ≡ framed payload
    pub small : length payload < 256 ^ 4
    pub decodes : pc.from_bytes payload ≡ some rec

  pub encode_frame-IsFrameOf :
      {E : Type 0} (rec : WalRecord) (frame : Bytes)
      → encode_frame {E = E} rec ≡ Result.ok frame
      → (payload : Bytes) × IsFrameOf rec frame payload
  unfolding encode_frame
  encode_frame-IsFrameOf rec frame h = elim (Option-cases (pc.to_stdvec rec)) [
    | inl r ↦ ground (arith, h, r)
    | inr (payload, r) ↦ (
      payload,
      record {
        is_framed = ground (arith, h, r);
        small = ground (arith, h, r);
        decodes = pc.from_bytes-to_stdvec rec payload r;
      },
    )
  ]

  pub read_frame-framed :
      (rec : WalRecord) (payload tail : Bytes)
      → length payload < 256 ^ 4
      → pc.from_bytes payload ≡ some rec
      → read_frame (framed payload ++ tail) ≡ Found.intact rec (8 + length payload)
  unfolding read_frame
  read_frame-framed rec payload tail small decodes = ground (
    arith,
    from_le-le_bytes 4 (length payload) small,
    from_le-le_bytes 4 (crc.checksum (le_bytes 4 (length payload) ++ payload)) (crc.checksum-lt _),
    take-length payload tail,
    length-append payload tail,
  )

  read_frame-short :
      (rest : Bytes) → 0 < length rest → length rest < 8 → read_frame rest ≡ Found.torn
  unfolding read_frame
  read_frame-short rest lo hi = ground (arith, lo, hi)

  -- the header is whole and the payload is not
  read_frame-header :
      (payload : Bytes) (j : ℕ)
      → length payload < 256 ^ 4
      → j < length payload
      → read_frame (take (suc (suc (suc (suc (suc (suc (suc (suc j)))))))) (framed payload))
        ≡ Found.torn
  unfolding read_frame
  read_frame-header payload j small h =
      ground
        (arith, from_le-le_bytes 4 (length payload) small, length-take j payload (omega (arith, h)))

  pub read_frame-cut :
      (payload : Bytes) (k : ℕ)
      → length payload < 256 ^ 4
      → 0 < k
      → k < length (framed payload)
      → read_frame (take k (framed payload)) ≡ Found.torn
  read_frame-cut payload k small lo hi = elim (Bool-cases (ltb k 8)) [
    | inl r ↦
        let size = length-take k (framed payload) (omega (arith, hi)) in
        read_frame-short (take k (framed payload)) (omega (arith, lo, size))
          (ground (arith, r, size))
    | inr r ↦
        let e : k ≡ suc (suc (suc (suc (suc (suc (suc (suc (k - 8)))))))) = ground (arith, r) in
        rw e (read_frame-header payload (k - 8) small (ground (arith, hi, r)))
  ]

  -- What an intact frame at the front of `rest` is.
  record IsIntact (rest : Bytes) (rec : WalRecord) (n : ℕ) : Type 0 where
    pub size : n ≡ 8 + from_le (take 4 rest)
    pub fits : n ≤ length rest
    pub sum :
        crc.checksum
          (le_bytes 4 (from_le (take 4 rest)) ++ take (from_le (take 4 rest)) (drop 8 rest))
        ≡ from_le (take 4 (drop 4 rest))
    pub decodes : pc.from_bytes (take (from_le (take 4 rest)) (drop 8 rest)) ≡ some rec

  IsIntact-read_frame :
      (rest : Bytes) (rec : WalRecord) (n : ℕ)
      → read_frame rest ≡ Found.intact rec n
      → IsIntact rest rec n
  unfolding read_frame
  IsIntact-read_frame rest rec n h =
      let len = from_le (take 4 rest) in
      elim (Option-cases (pc.from_bytes (take len (drop 8 rest)))) [
        | inl none_read ↦ ground (arith, h, none_read)
        | inr (r, read) ↦ record {
          size = ground (arith, h, read);
          fits = ground (arith, h, read);
          sum = ground (arith, h, read);
          decodes = ground (arith, h, read);
        }
      ]

  read_frame-IsIntact :
      (rest : Bytes) (rec : WalRecord) (n : ℕ)
      → IsIntact rest rec n
      → read_frame rest ≡ Found.intact rec n
  unfolding read_frame
  read_frame-IsIntact rest rec n h = ground (arith, h.size, h.fits, h.sum, h.decodes)

  IsIntact-take :
      (rest tail : Bytes) (rec : WalRecord) (n : ℕ)
      → IsIntact rest rec n
      → IsIntact (take n rest ++ tail) rec n
  IsIntact-take rest tail rec n h =
      let len = from_le (take 4 rest) in
      let head = take_prefix 4 n rest tail (omega (arith, h.size)) h.fits in
      let stored =
        ap (take 4) (drop_prefix 4 n rest tail (omega (arith, h.size)) h.fits)
        ∙ take_prefix 4 (n - 4) (drop 4 rest) tail (omega (arith, h.size))
            (omega (arith, h.fits, length-drop 4 rest)) in
      let payload : take len (drop 8 (take n rest ++ tail)) ≡ take len (drop 8 rest) =
        ap (take len) (drop_prefix 8 n rest tail (omega (arith, h.size)) h.fits)
        ∙ take_prefix len (n - 8) (drop 8 rest) tail (omega (arith, h.size))
            (omega (arith, h.fits, length-drop 8 rest)) in
      record {
        size = rw head h.size;
        fits = omega (arith, length-append (take n rest) tail, length-take n rest h.fits);
        sum = rw (head, stored, payload) h.sum;
        decodes = rw (head, payload) h.decodes;
      }

  -- An intact frame is read again in front of any other bytes.
  pub read_frame-take :
      (rest tail : Bytes) (rec : WalRecord) (n : ℕ)
      → read_frame rest ≡ Found.intact rec n
      → (n ≤ length rest) × ((8 ≤ n) × (read_frame (take n rest ++ tail) ≡ Found.intact rec n))
  read_frame-take rest tail rec n h =
      let i = IsIntact-read_frame rest rec n h in
      (
        i.fits,
        (omega (arith, i.size), read_frame-IsIntact _ rec n (IsIntact-take rest tail rec n i)),
      )

  -- A frame that was encoded is read back in front of any other bytes.
  pub read_frame-encode_frame :
      {E : Type 0} (rec : WalRecord) (frame tail : Bytes)
      → encode_frame {E = E} rec ≡ Result.ok frame
      → (read_frame (frame ++ tail) ≡ Found.intact rec (length frame)) × (8 ≤ length frame)
  read_frame-encode_frame rec frame tail h =
      let (payload, f) = encode_frame-IsFrameOf rec frame h in
      let size : 8 + length payload ≡ length (framed payload) = omega arith in
      rw f.is_framed (
        read_frame-framed rec payload tail f.small f.decodes ∙ ap (Found.intact rec) size,
        omega arith,
      )

  -- A frame that was cut short inside reads as torn.
  pub read_frame-torn :
      {E : Type 0} (rec : WalRecord) (frame : Bytes) (k : ℕ)
      → encode_frame {E = E} rec ≡ Result.ok frame
      → 0 < k
      → k < length frame
      → read_frame (take k frame) ≡ Found.torn
  read_frame-torn rec frame k h lo hi =
      let (payload, f) = encode_frame-IsFrameOf rec frame h in
      rw f.is_framed
        (read_frame-cut payload k f.small lo (omega (arith, hi, ap length f.is_framed)))
