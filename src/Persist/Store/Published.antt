-- ===== src/Persist/Store/Published.antt =====
-- What readers see of the store of src/persist/mod.rs, after any of its calls.
use orpheusgraph.Prelude.{
  string_eq, subst, ℕ, ◌≡◌, refl, sym, ap, ◌∙◌, Option, none, some, List, String, arith, Bool-cases,
  inl, inr, ltb,
}
use orpheusgraph.IndexMap.{IndexMap}
use orpheusgraph.Types.{NodeData}
use orpheusgraph.Delta.Defs.{Op}
use orpheusgraph.Delta.View.{is_empty}
use orpheusgraph.Persist.Crc.{Crc32}
use orpheusgraph.Persist.Error.{PersistError, err, Result-cases}
use orpheusgraph.Persist.Program.{fail_if, and_then-keeps}
use orpheusgraph.Persist.Vfs.{VfsFile, Vfs}
use orpheusgraph.Persist.Manifest.{Json}
use orpheusgraph.Persist.Commit.File.{CommitFile, advance}
use orpheusgraph.Persist.Wal.Frame.{Postcard}
use orpheusgraph.Persist.Wal.Writer
use orpheusgraph.Persist.Wal.Writer.{FsyncPolicy, truncate}
use orpheusgraph.Persist.Store.State.{
  Snapshots, Writer, Store, GraphState, state_of, marked, advance_commit, on_writer, on_disk,
  on_wal,
}
use orpheusgraph.Persist.Store.Batch.{commit_batch, write_batch, publish}
use orpheusgraph.Persist.Store.Batch.Failure.{Core, commit_batch-err}
use orpheusgraph.Persist.Store.Compact.{
  Fold, fold, point_at, reload, settle_base, refresh, write_fold, rotate, collect, install,
  compact_locked,
}
use orpheusgraph.Persist.Store.Calls.{flush_writer, flush, compact, auto_compact, threshold, apply}

module _ {G V : Type 0} ⦃im : IndexMap String NodeData⦄ where
  abbrev state_of_core : Core G V → GraphState G V
  state_of_core c = record { base = c.base; delta = c.delta; seq = c.seq; epoch = c.epoch }

module _ {F D G V : Type 0} ⦃im : IndexMap String NodeData⦄ where
  -- Readers see what the writer holds.
  abbrev pub IsPublished : Store F D G V → Type 0
  IsPublished s = s.state ≡ state_of s.writer

module _ {E F G V : Type 0} ⦃im : IndexMap String NodeData⦄ where
  marked-state_of :
      (n : ℕ) (w : Writer F G V) (out : Option (PersistError E) × CommitFile F)
      → state_of (marked n w out).1 ≡ state_of w
  marked-state_of n w (some x, c) = refl
  marked-state_of n w (none, c) = refl

module _ (E : Type 0) {F G V : Type 0} ⦃im : IndexMap String NodeData⦄ ⦃crc : Crc32⦄
    ⦃vf : VfsFile E F⦄ where
  advance_commit-state_of :
      (n : ℕ) (w : Writer F G V) → state_of (advance_commit {E = E} n w).1 ≡ state_of w
  unfolding advance_commit
  advance_commit-state_of n w = marked-state_of n w (advance w.commit w.epoch n)

  flush_writer-state_of : (w : Writer F G V) → state_of (flush_writer {E = E} w).1 ≡ state_of w
  unfolding flush_writer
  flush_writer-state_of w =
      and_then-keeps (λ v. state_of v ≡ state_of w) (on_wal (Writer.flush {E = E}) w) _ refl
        (λ u v h. advance_commit-state_of v.seq v ∙ h)

  rotate-state_of : (k : Fold G) (w : Writer F G V) → state_of (rotate {E = E} k w).1 ≡ state_of w
  unfolding rotate point_at
  rotate-state_of k w =
      and_then-keeps (λ v. state_of v ≡ state_of w) (advance_commit {E = E} _ (point_at k w)) _
        (advance_commit-state_of _ (point_at k w)) (λ u v h. h)

module _ (E : Type 0) {F D G V : Type 0} ⦃im : IndexMap String NodeData⦄ ⦃crc : Crc32⦄
    ⦃vf : VfsFile E F⦄ where
  flush-IsPublished : (s : Store F D G V) → IsPublished s → IsPublished (flush {E = E} s).1
  unfolding flush
  flush-IsPublished s h =
      and_then-keeps IsPublished (fail_if s.writer.wal.poisoned PersistError.poisoned s) _ h
        (λ u t k. k ∙ sym (flush_writer-state_of E t.writer))

module _ {E F D G V : Type 0} ⦃im : IndexMap String NodeData⦄ ⦃crc : Crc32⦄ ⦃js : Json⦄
    ⦃vf : VfsFile E F⦄ where
  pub reload_state :
      (vfs : Vfs E F D) (sn : Snapshots E D G V) (k : Fold G) (s : Store F D G V)
      → (reload vfs sn k s).1 ≡ s
  unfolding reload
  reload_state vfs sn k s = ground arith

  collect-IsPublished :
      (vfs : Vfs E F D) (old new : String) (s : Store F D G V)
      → IsPublished s
      → IsPublished (collect vfs old new s)
  unfolding collect
  collect-IsPublished vfs old new s h = ground (arith, h)

  refresh-IsPublished :
      (vfs : Vfs E F D) (sn : Snapshots E D G V) (k : Fold G) (old : String) (s : Store F D G V)
      → IsPublished s
      → IsPublished (refresh vfs sn k old s).1
  unfolding refresh settle_base publish
  refresh-IsPublished vfs sn k old s h =
      and_then-keeps IsPublished (reload vfs sn k s) _
        (subst IsPublished (sym (reload_state vfs sn k s)) h)
        (λ base t i. collect-IsPublished vfs old k.new_snapshot_file _ refl)

  install-IsPublished :
      (vfs : Vfs E F D) (sn : Snapshots E D G V) (created_by : String) (k : Fold G)
      (s : Store F D G V)
      → IsPublished s
      → IsPublished (install vfs sn created_by k s).1
  unfolding install
  install-IsPublished vfs sn created_by k s h =
      and_then-keeps IsPublished (on_disk (write_fold vfs s.dir created_by s.writer.epoch k) s) _ h
        (λ u1 s1 h1.
          and_then-keeps IsPublished (on_writer (rotate k) s1) _
            (h1 ∙ sym (rotate-state_of E k s1.writer))
            (λ u2 s2 h2. refresh-IsPublished vfs sn k s.writer.snapshot_file s2 h2))

  compact_locked-IsPublished :
      (vfs : Vfs E F D) (sn : Snapshots E D G V) (created_by : String) (s : Store F D G V)
      → IsPublished s
      → IsPublished (compact_locked vfs sn created_by s).1
  unfolding compact_locked
  compact_locked-IsPublished vfs sn created_by s h = elim (Bool-cases (is_empty s.writer.delta)) [
    | inl t ↦ rw t h
    | inr t ↦ rw t (install-IsPublished vfs sn created_by (fold sn s.writer) s h)
  ]

  auto_compact-IsPublished :
      (vfs : Vfs E F D) (sn : Snapshots E D G V) (created_by : String) (s : Store F D G V)
      → IsPublished s
      → IsPublished (auto_compact vfs sn created_by s)
  unfolding auto_compact
  auto_compact-IsPublished vfs sn created_by s h =
      let c = compact_locked-IsPublished vfs sn created_by s h in
      elim (Bool-cases (ltb (threshold sn s) s.writer.delta_ops)) [
        | inr t ↦ rw t h
        | inl t ↦ elim (Result-cases (compact_locked vfs sn created_by s).0) [
          | inl (e, q) ↦ rw (t, q) c
          | inr (u, q) ↦ rw (t, q) c
        ]
      ]

  compact-IsPublished :
      (vfs : Vfs E F D) (sn : Snapshots E D G V) (created_by : String) (s : Store F D G V)
      → IsPublished s
      → IsPublished (compact vfs sn created_by s).1
  unfolding compact
  compact-IsPublished vfs sn created_by s h =
      and_then-keeps IsPublished (fail_if s.writer.wal.poisoned PersistError.poisoned s) _ h
        (λ u t k. compact_locked-IsPublished vfs sn created_by t k)

module _ {E F D G V : Type 0} ⦃im : IndexMap String NodeData⦄ ⦃crc : Crc32⦄ ⦃pc : Postcard⦄
    ⦃js : Json⦄ ⦃vf : VfsFile E F⦄ where
  commit_batch-IsPublished :
      (sn : Snapshots E D G V) (ops : List Op) (expected : Option ℕ) (s : Store F D G V)
      → IsPublished s
      → IsPublished (commit_batch sn ops expected s).1
  unfolding commit_batch publish
  commit_batch-IsPublished sn ops expected s h =
      elim (Result-cases (write_batch sn ops expected s.writer).0) [
        | inl (e, q) ↦
            let r : (commit_batch sn ops expected s).0 ≡ err e = ground (arith, q) in
            let (state, core) = commit_batch-err E sn ops expected s e r in
            state ∙ (h ∙ ap state_of_core (sym core))
        | inr (n, q) ↦ rw q refl
      ]

  -- Each call, however it ends, leaves readers with what the writer holds: the base, the delta, the
  -- number and the epoch that are published are the writer's, also after a compaction that failed
  -- halfway.
  pub calls-IsPublished :
      (vfs : Vfs E F D) (sn : Snapshots E D G V) (created_by : String) (ops : List Op)
      (expected : Option ℕ) (s : Store F D G V)
      → IsPublished s
      → IsPublished (apply vfs sn created_by ops expected s).1
        × (IsPublished (flush {E = E} s).1 × IsPublished (compact vfs sn created_by s).1)
  unfolding apply
  calls-IsPublished vfs sn created_by ops expected s h = (
    and_then-keeps IsPublished (commit_batch sn ops expected s) _
        (commit_batch-IsPublished sn ops expected s h)
        (λ n t k. auto_compact-IsPublished vfs sn created_by t k),
    (flush-IsPublished E s h, compact-IsPublished vfs sn created_by s h),
  )
