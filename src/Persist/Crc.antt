-- ===== src/Persist/Crc.antt =====
-- The crate crc32fast: the checksum that `Hasher` gives for the bytes it was fed, a `u32`.
use orpheusgraph.Prelude.{ℕ, ◌^◌, ◌<◌}
use orpheusgraph.Persist.Bytes.{Bytes}

pub record Crc32 : Type 0 where
  pub checksum : Bytes → ℕ
  pub checksum-lt : (bs : Bytes) → checksum bs < 256 ^ 4
