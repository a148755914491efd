-- ===== src/Persist/Store/Gc.antt =====
-- `gc_orphan_snapshots` of src/persist/mod.rs: the sweep when a store is opened.
use orpheusgraph.Prelude.{
  ◌-◌, Bool, not, ◌&&◌, ◌||◌, String, List, [], ◌∷◌, inl, inr, leb, if◌then◌else◌, ◌==◌, string_eq,
}
use Prim.Native.String
use text.Mathlib.Text.{starts_with}
use orpheusgraph.Persist.Vfs.{Vfs}
use orpheusgraph.Persist.Store.Compact.{remove_snapshot_file}

-- `name.ends_with(ending)`
abbrev pub ends_with : String → String → Bool
ends_with name ending =
    let n = Prim.Native.String.len name in
    let k = Prim.Native.String.len ending in
    leb k n && Prim.Native.String.slice name (n - k) n == ending

-- what the sweep removes, the live snapshot left out
unfoldable pub is_orphan : (keep name : String) → Bool
is_orphan keep name =
    not (name == keep)
    && (starts_with name "snapshot-" && (ends_with name ".og" || ends_with name ".og.tmp")
        || name == "MANIFEST.json.tmp")

module _ {E F D : Type 0} where
  unfoldable pub sweep : Vfs E F D → (dir keep : String) → List String → D → D
  sweep vfs dir keep [] d = d
  sweep vfs dir keep (name ∷ names) d =
      sweep vfs dir keep names
        (if is_orphan keep name then remove_snapshot_file vfs (vfs.join dir name) d else d)

  unfoldable pub gc_orphan_snapshots : Vfs E F D → (dir keep : String) → D → D
  gc_orphan_snapshots vfs dir keep d = elim (vfs.read_dir dir d) [
    | inl e ↦ d
    | inr names ↦ sweep vfs dir keep names d
  ]
