-- ===== src/Persist/Commit/Select.antt =====
-- The choice between the two slots when src/persist/commit.rs opens the sidecar, and the bytes that
-- `advance` writes.
use orpheusgraph.Prelude.{
  ℕ, ◌+◌, ◌-◌, ◌*◌, ◌≡◌, ◌<◌, ◌≤◌, refl, sym, ap, ◌∙◌, Option, none, some, ◌++◌, ltb, leb, length,
  take, drop, if◌then◌else◌, nat_eq, arith, append-nil, ◌⊎◌, length-append, length-take,
  length-drop, take-length, drop-length, drop-take, take_prefix, Bool-cases, inl, inr,
}
use orpheusgraph.Persist.Bytes.{Bytes}
use orpheusgraph.Persist.Vfs.{write_at}
use orpheusgraph.Persist.Crc.{Crc32}
use orpheusgraph.Persist.Commit.Slot.{CommitRecord, slot_size, file_size, decode_slot}

-- `buf.get(from..to)`
unfoldable pub get : Bytes → ℕ → ℕ → Option Bytes
get buf from to = if ltb (length buf) to then none else some (take (to - from) (drop from buf))

abbrev pub and_then : {A B : Type 0} → Option A → (A → Option B) → Option B
and_then none f = none
and_then (some a) f = f a

-- the valid slot with the higher `gen`, and its number
unfoldable pub choose : Option CommitRecord → Option CommitRecord → Option (CommitRecord × ℕ)
choose (some a) (some b) = if leb b.gen a.gen then some (a, 0) else some (b, 1)
choose (some a) none = some (a, 0)
choose none (some b) = some (b, 1)
choose none none = none

module _ ⦃crc : Crc32⦄ where
  abbrev pub slot0 : Bytes → Option CommitRecord
  slot0 buf = and_then (get buf 0 slot_size) decode_slot

  abbrev pub slot1 : Bytes → Option CommitRecord
  slot1 buf = and_then (get buf slot_size file_size) decode_slot

  -- the record that `open` trusts, and the slot that holds it
  unfoldable pub select : Bytes → Option (CommitRecord × ℕ)
  select buf = choose (slot0 buf) (slot1 buf)

choose-inv :
    (a b : Option CommitRecord) (rec : CommitRecord) (chosen : ℕ)
    → choose a b ≡ some (rec, chosen)
    → ((chosen ≡ 0) × (a ≡ some rec)) ⊎ ((chosen ≡ 1) × (b ≡ some rec))
unfolding choose
choose-inv (some a) (some b) rec chosen h = elim (Bool-cases (leb b.gen a.gen)) [
  | inl r ↦ inl (ground (arith, h, r), ground (arith, h, r))
  | inr r ↦ inr (ground (arith, h, r), ground (arith, h, r))
]
choose-inv (some a) none rec chosen h = inl (ground (arith, h), ground (arith, h))
choose-inv none (some b) rec chosen h = inr (ground (arith, h), ground (arith, h))
choose-inv none none rec chosen h = ground (arith, h)

pub choose_newer :
    (rec new : CommitRecord)
    → rec.gen < new.gen
    → (choose (some rec) (some new) ≡ some (new, 1))
      × (choose (some new) (some rec) ≡ some (new, 0))
unfolding choose
choose_newer rec new h = (ground (arith, h), ground (arith, h))

pub choose_single :
    (rec : CommitRecord)
    → (choose (some rec) none ≡ some (rec, 0)) × (choose none (some rec) ≡ some (rec, 1))
unfolding choose
choose_single rec = (refl, refl)

get_within :
    (buf : Bytes) (from to : ℕ)
    → to ≤ length buf
    → get buf from to ≡ some (take (to - from) (drop from buf))
unfolding get
get_within buf from to h = ground (arith, h)

get_beyond : (buf : Bytes) (from to : ℕ) → length buf < to → get buf from to ≡ none
unfolding get
get_beyond buf from to h = ground (arith, h)

-- A write that leaves no gap.
write_inside :
    (buf bytes : Bytes) (pos : ℕ)
    → pos ≤ length buf
    → write_at buf pos bytes ≡ take pos buf ++ (bytes ++ drop (pos + length bytes) buf)
unfolding write_at
write_inside buf bytes pos h =
    let z : pos - length buf ≡ 0 = omega (arith, h) in rw (z, append-nil (take pos buf)) refl

take_slot : (n : ℕ) (bytes rest : Bytes) → length bytes ≡ n → take n (bytes ++ rest) ≡ bytes
take_slot n bytes rest e = ap (λ k. take k (bytes ++ rest)) (sym e) ∙ take-length bytes rest

drop_slot : (n : ℕ) (bytes rest : Bytes) → length bytes ≡ n → drop n (bytes ++ rest) ≡ rest
drop_slot n bytes rest e = ap (λ k. drop k (bytes ++ rest)) (sym e) ∙ drop-length bytes rest

-- A write of the second slot leaves the first, and is read.
write_second :
    (n : ℕ) (buf bytes : Bytes)
    → n ≤ length buf
    → length bytes ≡ n
    → (get (write_at buf n bytes) 0 n ≡ get buf 0 n)
      × (get (write_at buf n bytes) n (n + n) ≡ some bytes)
write_second n buf bytes h e =
    let rest = drop (n + length bytes) buf in
    let ys = bytes ++ rest in
    let size = length-append (take n buf) ys in
    let size' = length-append bytes rest in
    let z : n - 0 ≡ n = omega arith in
    let m : n + n - n ≡ n = omega arith in
    rw (write_inside buf bytes n h) (
      get_within (take n buf ++ ys) 0 n (omega (arith, size, length-take n buf h))
          ∙ (ap some (rw z (take_prefix n n buf ys (omega arith) h)) ∙ sym (get_within buf 0 n h)),
      get_within (take n buf ++ ys) n (n + n) (omega (arith, size, size', length-take n buf h, e))
          ∙ ap some (rw (m, drop-take n buf ys h) (take_slot n bytes rest e)),
    )

-- A write of the first slot leaves the second, and is read.
write_first :
    (n : ℕ) (buf bytes : Bytes)
    → length bytes ≡ n
    → (get (write_at buf 0 bytes) 0 n ≡ some bytes)
      × (get (write_at buf 0 bytes) n (n + n) ≡ get buf n (n + n))
write_first n buf bytes e =
    let k : 0 + length bytes ≡ n = omega (arith, e) in
    let z : n - 0 ≡ n = omega arith in
    let rest = drop n buf in
    let size : length (bytes ++ rest) ≡ n + (length buf - n) =
      omega (arith, length-append bytes rest, length-drop n buf, e) in
    rw (write_inside buf bytes 0 (omega arith), k)
      (
        get_within (bytes ++ rest) 0 n (omega (arith, size))
            ∙ ap some (rw z (take_slot n bytes rest e)),
        elim (Bool-cases (ltb (length buf) (n + n))) [
          | inl r ↦
              get_beyond (bytes ++ rest) n (n + n) (ground (arith, size, r, e))
              ∙ sym (get_beyond buf n (n + n) (ground (arith, r)))
          | inr r ↦
              get_within (bytes ++ rest) n (n + n) (ground (arith, size, r))
              ∙ (ap (λ bs. some (take (n + n - n) bs)) (drop_slot n bytes rest e)
                  ∙ sym (get_within buf n (n + n) (ground (arith, r))))
        ],
      )

module _ ⦃crc : Crc32⦄ where
  -- the offset of the slot that is not `chosen`
  abbrev pub other_slot : ℕ → ℕ
  other_slot chosen = (1 - chosen) * slot_size

  slot0_size : (buf : Bytes) (rec : CommitRecord) → slot0 buf ≡ some rec → 44 ≤ length buf
  slot0_size buf rec h = elim (Bool-cases (ltb (length buf) 44)) [
    | inl r ↦ ground (arith, h, get_beyond buf 0 44 (ground (arith, r)))
    | inr r ↦ ground (arith, r)
  ]

  -- What the file holds after the slot that is not trusted was overwritten.
  pub select-write_at :
      (buf bytes : Bytes) (rec : CommitRecord) (chosen : ℕ)
      → select buf ≡ some (rec, chosen)
      → length bytes ≡ 44
      → ((chosen ≡ 0)
          × (select (write_at buf (other_slot chosen) bytes)
              ≡ choose (some rec) (decode_slot bytes)))
        ⊎ ((chosen ≡ 1)
            × (select (write_at buf (other_slot chosen) bytes)
                ≡ choose (decode_slot bytes) (some rec)))
  unfolding select
  select-write_at buf bytes rec chosen h e =
      elim (choose-inv (slot0 buf) (slot1 buf) rec chosen h) [
        | inl (c, s) ↦
            let w = write_second 44 buf bytes (slot0_size buf rec s) e in
            inl (c, rw (c, w.0, w.1, s) refl)
        | inr (c, s) ↦ let w = write_first 44 buf bytes e in inr (c, rw (c, w.0, w.1, s) refl)
      ]
