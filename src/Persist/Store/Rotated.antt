-- ===== src/Persist/Store/Rotated.antt =====
-- The steps of a compaction of src/persist/mod.rs after the new snapshot is written.
use orpheusgraph.Prelude.{
  string_eq, subst, ℕ, ◌≡◌, refl, sym, ap, ◌∙◌, true, [], String, arith, max,
}
use orpheusgraph.IndexMap.{IndexMap}
use orpheusgraph.Types.{NodeData}
use orpheusgraph.Persist.Crc.{Crc32}
use orpheusgraph.Persist.Error.{ok}
use orpheusgraph.Persist.Program.{and_then-Went}
use orpheusgraph.Persist.Vfs.{VfsFile, Vfs}
use orpheusgraph.Persist.Commit.File.{advance}
use orpheusgraph.Persist.Wal.Writer.{truncate}
use orpheusgraph.Persist.Wal.Appended.{Holds, truncate-Holds}
use orpheusgraph.Persist.Store.State.{
  owned_mode, mmap, unchecked, BaseGraph, owned, Snapshots, Writer, Store, advance_commit, on_wal,
}
use orpheusgraph.Persist.Store.Batch.{publish}
use orpheusgraph.Persist.Store.Batch.Logged.{marked-ok}
use orpheusgraph.Persist.Store.Compact.{
  Fold, point_at, rebase, reload, rotate, collect, settle_base, refresh,
}

module _ (E : Type 0) {F G V : Type 0} ⦃im : IndexMap String NodeData⦄ ⦃crc : Crc32⦄
    ⦃vf : VfsFile E F⦄ where
  -- What a rotation has done: the log is empty, the snapshot's number is the fold's, and the marker
  -- is not behind it.
  pub record IsRotated (k : Fold G) (w w1 : Writer F G V) : Type 0 where
    pub emptied : Holds E w1.wal []
    pub folded : w1.snapshot_seq ≡ k.fold_seq
    pub marker : w1.durable_seq ≡ max w.durable_seq k.fold_seq
    pub seq : w1.seq ≡ w.seq
    pub epoch : w1.epoch ≡ w.epoch
    pub file : w1.snapshot_file ≡ k.new_snapshot_file
    pub crc32 : w1.snapshot_crc32 ≡ k.new_crc
    pub mode : w1.mode ≡ w.mode
    pub prefault : w1.prefault ≡ w.prefault

  advance_commit-ok :
      (n : ℕ) (w : Writer F G V)
      → (advance_commit {E = E} n w).0 ≡ ok tt
      → (advance_commit {E = E} n w).1
        ≡ record w { commit = (advance {E = E} w.commit w.epoch n).1; durable_seq = n }
  unfolding advance_commit
  advance_commit-ok n w h = ap (λ o. o.1) (marked-ok n w (advance {E = E} w.commit w.epoch n) h).1

  pub rotate-IsRotated :
      (k : Fold G) (w : Writer F G V)
      → vf.appends w.wal.file ≡ true
      → (rotate {E = E} k w).0 ≡ ok tt
      → IsRotated k w (rotate {E = E} k w).1
  unfolding rotate point_at
  rotate-IsRotated k w a h =
      let n = max w.durable_seq k.fold_seq in
      let w0 : Writer F G V = point_at k w in
      let out = advance_commit {E = E} n w0 in
      let marked_it = and_then-Went out.0 out.1 _ tt h in
      let w1 : Writer F G V = record w0 {
        commit = (advance {E = E} w.commit w.epoch n).1;
        durable_seq = n;
      } in
      let same : out.1 ≡ w1 = advance_commit-ok n w0 marked_it.answered in
      let cut : (truncate {E = E} w.wal).0 ≡ ok tt =
        ap (λ v. (truncate {E = E} v.wal).0) (sym same) ∙ marked_it.rest in
      let held = truncate-Holds E w.wal a cut in
      let w2 : Writer F G V = record w1 { wal = (truncate {E = E} w.wal).1 } in
      let end : (rotate {E = E} k w).1 ≡ w2 =
        ap (λ o. o.1) marked_it.whole ∙ ap (λ v. (on_wal (truncate {E = E}) v).1) same in
      let done : IsRotated k w w2 = record {
        emptied = held;
        folded = refl;
        marker = refl;
        seq = refl;
        epoch = refl;
        file = refl;
        crc32 = refl;
        mode = refl;
        prefault = refl;
      } in
      subst (IsRotated k w) (sym end) done

module _ {E F D G V : Type 0} ⦃im : IndexMap String NodeData⦄ where
  collect-writer :
      (vfs : Vfs E F D) (old new : String) (s : Store F D G V)
      → (collect vfs old new s).writer ≡ s.writer
  unfolding collect
  collect-writer vfs old new s = ground arith

  reload_same :
      (vfs : Vfs E F D) (sn : Snapshots E D G V) (k : Fold G) (s : Store F D G V)
      → (reload vfs sn k s).1 ≡ s
  unfolding reload
  reload_same vfs sn k s = ground arith

  -- the base that a compaction goes on with: in the owned mode the graph that was folded, else what
  -- opening the new snapshot gives
  pub record IsReloaded (vfs : Vfs E F D) (sn : Snapshots E D G V) (dir file : String) (crc32 : ℕ)
      (folded : G) (w : Writer F G V) (base : BaseGraph G V) : Type 0 where
    pub in_memory : w.mode ≡ owned_mode → base ≡ owned folded
    pub mapped :
        w.mode ≡ mmap
        → (d : D) × (sn.open_snapshot (vfs.join dir file) mmap unchecked w.prefault crc32 d
            ≡ ok base)

  reload-IsReloaded :
      (vfs : Vfs E F D) (sn : Snapshots E D G V) (k : Fold G) (s : Store F D G V)
      (base : BaseGraph G V)
      → (reload vfs sn k s).0 ≡ ok base
      → IsReloaded vfs sn s.dir k.new_snapshot_file k.new_crc k.folded s.writer base
  unfolding reload
  reload-IsReloaded vfs sn k s base h = record {
    in_memory = λ m. ground (arith, h, m);
    mapped = λ m. (s.disk, ground (arith, h, m));
  }

  pub IsReloaded-moved :
      (vfs : Vfs E F D) (sn : Snapshots E D G V) (dir f f1 : String) (c c1 : ℕ) (folded : G)
      (w1 w : Writer F G V) (base : BaseGraph G V)
      → f1 ≡ f
      → c1 ≡ c
      → w1.mode ≡ w.mode
      → w1.prefault ≡ w.prefault
      → IsReloaded vfs sn dir f c folded w1 base
      → IsReloaded vfs sn dir f1 c1 folded w base
  IsReloaded-moved vfs sn dir f f1 c c1 folded w1 w base file crc32 mode prefault r = record {
    in_memory = λ m. r.in_memory (mode ∙ m);
    mapped = λ m. let (d, o) = r.mapped (mode ∙ m) in (d, ground (arith, o, file, crc32, prefault));
  }

  pub refresh-writer :
      (vfs : Vfs E F D) (sn : Snapshots E D G V) (k : Fold G) (old : String) (s : Store F D G V)
      → (refresh vfs sn k old s).0 ≡ ok tt
      → (base : BaseGraph G V) × (((refresh vfs sn k old s).1.writer ≡ rebase base s.writer)
          × IsReloaded vfs sn s.dir k.new_snapshot_file k.new_crc k.folded s.writer base)
  unfolding refresh settle_base publish
  refresh-writer vfs sn k old s h =
      let out = reload vfs sn k s in
      let loaded = and_then-Went out.0 out.1 _ tt h in
      (
        loaded.value,
        (
          ap (λ o. o.1.writer) loaded.whole
              ∙ (collect-writer vfs old k.new_snapshot_file _
                  ∙ ap (λ t. rebase loaded.value t.writer) (reload_same vfs sn k s)),
          reload-IsReloaded vfs sn k s loaded.value loaded.answered,
        ),
      )
