-- ===== src/Persist/Store/Swept.antt =====
-- The sweep of src/persist/mod.rs keeps what is not an orphan.
use orpheusgraph.Prelude.{
  string_eq, ◌≡◌, ◌≢◌, refl, sym, ap, ◌∙◌, true, false, String, List, [], ◌∷◌, arith, Bool-cases,
  inl, inr, ◌⊎◌, ◌==◌,
}
use orpheusgraph.Persist.Vfs.{VfsFile, Vfs, IsFileSystem}
use orpheusgraph.Persist.Store.Compact.{remove_snapshot_file}
use text.Mathlib.Text.{starts_with}
use orpheusgraph.Traversal.Lists.{All}
use orpheusgraph.Persist.Store.Gc.{is_orphan, ends_with, sweep, gc_orphan_snapshots}

Sum-cases : {A B : Type 0} (x : A ⊎ B) → ((a : A) × (x ≡ inl a)) ⊎ ((b : B) × (x ≡ inr b))
Sum-cases (inl a) = inl (a, refl)
Sum-cases (inr b) = inr (b, refl)

-- What a sweep must leave: the live snapshot, and what is named neither like a snapshot, written or being
-- written, nor like a manifest that is being written.
pub data IsSpared (keep kept : String) : Type 0 where
  live : kept ≡ keep → IsSpared keep kept
  no_prefix : starts_with kept "snapshot-" ≡ false → kept ≢ "MANIFEST.json.tmp" → IsSpared keep kept
  no_suffix :
      ends_with kept ".og" ≡ false
      → ends_with kept ".og.tmp" ≡ false
      → kept ≢ "MANIFEST.json.tmp"
      → IsSpared keep kept

other_name : (a b : String) → a ≢ b → (a == b) ≡ false
other_name a b h = elim (Bool-cases (a == b)) [
  | inl r ↦ absurd (h ((string_eq.beq_iff a b).0 r))
  | inr r ↦ r
]

spared-is_orphan : (keep kept : String) → IsSpared keep kept → is_orphan keep kept ≡ false
unfolding is_orphan
spared-is_orphan keep kept (IsSpared.live e) = ground (arith, string_eq.beq_iff kept keep, e)
spared-is_orphan keep kept (IsSpared.no_prefix p h) =
    ground (arith, p, other_name kept "MANIFEST.json.tmp" h)
spared-is_orphan keep kept (IsSpared.no_suffix p q h) =
    ground (arith, p, q, other_name kept "MANIFEST.json.tmp" h)

module _ {E F D : Type 0} ⦃vf : VfsFile E F⦄ where
  sweep-bytes :
      (vfs : Vfs E F D) (law : IsFileSystem vf vfs) (dir keep kept : String) (names : List String)
      (d : D)
      → All (λ name. law.is_file_name name ≡ true) names
      → law.is_file_name kept ≡ true
      → is_orphan keep kept ≡ false
      → law.bytes_of (sweep vfs dir keep names d) (vfs.join dir kept)
        ≡ law.bytes_of d (vfs.join dir kept)
  unfolding sweep remove_snapshot_file
  sweep-bytes vfs law dir keep kept [] d all plain h = refl
  sweep-bytes vfs law dir keep kept (name ∷ names) d (n, all) plain h =
      elim (Bool-cases (is_orphan keep name)) [
        | inr t ↦ rw t (sweep-bytes vfs law dir keep kept names d all plain h)
        | inl t ↦
            let other : name ≢ kept = λ e.
              let clash : is_orphan keep kept ≡ true = ap (is_orphan keep) (sym e) ∙ t in
              ground (arith, clash, h) in
            rw t (
              sweep-bytes vfs law dir keep kept names _ all plain h
              ∙ law.remove_file-others dir name kept d n plain other)
      ]

  -- Whatever the directory lists, the sweep leaves with the bytes they had the live snapshot, and every
  -- file of the directory whose name does not begin like that of a snapshot, or does not end like that
  -- of one that is written or being written, and is not that of a manifest being written.
  pub gc_orphan_snapshots-bytes :
      (vfs : Vfs E F D) (law : IsFileSystem vf vfs) (dir keep kept : String) (d : D)
      → law.is_file_name kept ≡ true
      → IsSpared keep kept
      → law.bytes_of (gc_orphan_snapshots vfs dir keep d) (vfs.join dir kept)
        ≡ law.bytes_of d (vfs.join dir kept)
  unfolding gc_orphan_snapshots
  gc_orphan_snapshots-bytes vfs law dir keep kept d plain h =
      elim (Sum-cases (vfs.read_dir dir d)) [
        | inl (e, r) ↦ rw (r, gc_orphan_snapshots) refl
        | inr (names, r) ↦
            rw (r, gc_orphan_snapshots)
              (sweep-bytes vfs law dir keep kept names d (law.read_dir-names dir d names r) plain
                (spared-is_orphan keep kept h))
      ]
