-- ===== src/Persist/Bytes.antt =====
-- Bytes as numbers, and the little-endian words of src/persist (`to_le_bytes`, `from_le_bytes`).
use native.Mathlib.Nat.{pow-suc, div-add-mod', div-lt_iff_lt-mul}
use orpheusgraph.Prelude.{
  ℕ, zero, suc, ◌+◌, ◌*◌, ◌/◌, ◌%◌, ◌^◌, ◌<◌, ◌≡◌, refl, ap, List, [], ◌∷◌, length, arith,
}

abbrev pub Bytes : Type 0
Bytes = List ℕ

-- `(n as u{8·w}).to_le_bytes()`
abbrev pub le_bytes : ℕ → ℕ → Bytes
le_bytes zero n = []
le_bytes (suc w) n = n % 256 ∷ le_bytes w (n / 256)

-- `u{8·w}::from_le_bytes` of a slice of `w` bytes
abbrev pub from_le : Bytes → ℕ
from_le [] = 0
from_le (b ∷ bs) = b + from_le bs * 256

pub length-le_bytes : (w n : ℕ) → length (le_bytes w n) ≡ w
length-le_bytes zero n = refl
length-le_bytes (suc w) n = ap suc (length-le_bytes w (n / 256))

pub from_le-le_bytes : (w n : ℕ) → n < 256 ^ w → from_le (le_bytes w n) ≡ n
from_le-le_bytes zero n h = omega arith
from_le-le_bytes (suc w) n h =
    let below : n / 256 < 256 ^ w =
      (div-lt_iff_lt-mul {k = 256} {x = n} {y = 256 ^ w} (omega arith)).1
        (omega (arith, h, pow-suc 256 w)) in
    omega (arith, from_le-le_bytes w (n / 256) below, div-add-mod' n 256)
