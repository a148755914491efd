-- ===== src/Persist/Store/Folded.antt =====
-- A compaction of src/persist/mod.rs that succeeds.
use orpheusgraph.Prelude.{
  string_eq, subst, ◌≡◌, refl, sym, ap, ◌∙◌, true, false, some, is_some, List, [], String, arith,
  max,
}
use orpheusgraph.IndexMap.{IndexMap}
use orpheusgraph.HashSet.{contains}
use orpheusgraph.Types.{NodeData, NodeInput, EdgeInput}
use orpheusgraph.Accessor.{NodeView}
use orpheusgraph.Delta.View.{is_empty, get_node}
use orpheusgraph.Delta.Materialize.{materialize}
use orpheusgraph.Delta.Written.{IsWritten, materialize-IsWritten}
use orpheusgraph.Delta.Defs
use orpheusgraph.Delta.Defs.{GraphDelta}
use orpheusgraph.Persist.Crc.{Crc32}
use orpheusgraph.Persist.Error.{ok}
use orpheusgraph.Persist.Program.{and_then-Went}
use orpheusgraph.Persist.Vfs.{VfsFile, Vfs}
use orpheusgraph.Persist.Manifest.{Json}
use orpheusgraph.Persist.Wal.Frame.{Postcard}
use orpheusgraph.Persist.Store.State.{BaseGraph, Snapshots, as_accessor, node_names, Writer, Store}
use orpheusgraph.Persist.Store.Batch.Logged.{body_of, IsLogged}
use orpheusgraph.Persist.Store.Compact.{fold, rebase, rotate, write_fold, install, compact_locked}
use orpheusgraph.Persist.Store.Rotated.{
  IsRotated, IsReloaded, rotate-IsRotated, IsReloaded-moved, refresh-writer,
}

module _ {E F D G V : Type 0} ⦃im : IndexMap String NodeData⦄ ⦃crc : Crc32⦄ ⦃pc : Postcard⦄
    ⦃js : Json⦄ ⦃vf : VfsFile E F⦄ where
  -- What a compaction has done: the numbers stand, the snapshot and the base hold a graph built from
  -- what is written out of the merged view, the delta and the log are empty, and the marker is not
  -- behind the snapshot.
  pub record IsFolded (vfs : Vfs E F D) (sn : Snapshots E D G V) (dir : String)
      (w w1 : Writer F G V) : Type 0 where
    pub nodes : List NodeInput
    pub edges : List EdgeInput
    pub written : (name : String) → IsWritten (as_accessor sn w.base) w.delta nodes edges name
    pub crc32 :
        w1.snapshot_crc32 ≡ crc.checksum (sn.to_rkyv_v2 (sn.build_graph_prenormalized nodes edges))
    pub base :
        IsReloaded vfs sn dir w1.snapshot_file w1.snapshot_crc32
          (sn.build_graph_prenormalized nodes edges)
          w
          w1.base
    pub seq : w1.seq ≡ w.seq
    pub epoch : w1.epoch ≡ w.epoch
    pub snapshot_seq : w1.snapshot_seq ≡ w.seq
    pub durable_seq : w1.durable_seq ≡ max w.durable_seq w.seq
    pub delta : w1.delta ≡ Defs.new
    pub logged : IsLogged E (as_accessor sn w1.base) (body_of w1) []

  -- the names of the base are those of its nodes, and the nodes of the merged view bear theirs
  pub record IsNamed (sn : Snapshots E D G V) (w : Writer F G V) : Type 0 where
    pub listed :
        (x : String)
        → contains (node_names sn w.base) x ≡ is_some ((as_accessor sn w.base).get_node x)
    pub own :
        (x : String) (v : NodeView)
        → get_node (as_accessor sn w.base) w.delta x ≡ some v
        → v.name ≡ x

  rotated_and_rebased :
      (vfs : Vfs E F D) (sn : Snapshots E D G V) (dir : String) (w w1 : Writer F G V)
      (base : BaseGraph G V)
      → IsNamed sn w
      → IsRotated E (fold sn w) w w1
      → IsReloaded vfs sn dir w1.snapshot_file w1.snapshot_crc32 (fold sn w).folded w base
      → IsFolded vfs sn dir w (rebase base w1)
  unfolding rebase fold
  rotated_and_rebased vfs sn dir w w1 base named r loaded =
      let inputs = materialize (as_accessor sn w.base) (node_names sn w.base) w.delta in
      record {
        nodes = inputs.0;
        edges = inputs.1;
        written = λ name.
            materialize-IsWritten (as_accessor sn w.base) w.delta named.own (node_names sn w.base)
              named.listed name;
        crc32 = r.crc32;
        base = loaded;
        seq = r.seq;
        epoch = r.epoch;
        snapshot_seq = r.folded;
        durable_seq = r.marker;
        delta = refl;
        logged = record {
          first = w1.seq;
          log = [];
          logged = refl;
          holds = r.emptied;
          early = omega (arith, r.folded, r.seq);
          folded = omega (arith, r.folded, r.seq);
          consecutive = refl;
          replayed = refl;
        };
      }

  install-IsFolded :
      (vfs : Vfs E F D) (sn : Snapshots E D G V) (created_by : String) (s : Store F D G V)
      → IsNamed sn s.writer
      → vf.appends s.writer.wal.file ≡ true
      → (install vfs sn created_by (fold sn s.writer) s).0 ≡ ok tt
      → IsFolded vfs sn s.dir s.writer (install vfs sn created_by (fold sn s.writer) s).1.writer
  unfolding install
  install-IsFolded vfs sn created_by s named a h =
      let k = fold sn s.writer in
      let old = s.writer.snapshot_file in
      let written = write_fold vfs s.dir created_by s.writer.epoch k s.disk in
      let s1 : Store F D G V = record s { disk = written.1 } in
      let wrote = and_then-Went written.0 s1 _ tt h in
      let turned = rotate {E = E} k s.writer in
      let s2 : Store F D G V = record s1 { writer = turned.1 } in
      let rotated = and_then-Went turned.0 s2 _ tt wrote.rest in
      let (base, (e, loaded)) = refresh-writer vfs sn k old s2 rotated.rest in
      let r = rotate-IsRotated E k s.writer a rotated.answered in
      let again =
        IsReloaded-moved vfs sn s.dir k.new_snapshot_file turned.1.snapshot_file k.new_crc
          turned.1.snapshot_crc32 k.folded turned.1 s.writer base r.file r.crc32 r.mode r.prefault
          loaded in
      subst (IsFolded vfs sn s.dir s.writer)
        (sym (ap (λ o. o.1.writer) (wrote.whole ∙ rotated.whole) ∙ e))
        (rotated_and_rebased vfs sn s.dir s.writer turned.1 base named r again)

  -- what a compaction that reports success has done, by whether there were changes
  pub record IsCompacted (vfs : Vfs E F D) (sn : Snapshots E D G V) (s s1 : Store F D G V)
      : Type 0 where
    pub nothing :
        is_empty s.writer.delta ≡ true
        → s1 ≡ record s { writer = record s.writer { delta_ops = 0 } }
    pub changes : is_empty s.writer.delta ≡ false → IsFolded vfs sn s.dir s.writer s1.writer

  pub compact_locked-IsCompacted :
      (vfs : Vfs E F D) (sn : Snapshots E D G V) (created_by : String) (s : Store F D G V)
      → IsNamed sn s.writer
      → vf.appends s.writer.wal.file ≡ true
      → (compact_locked vfs sn created_by s).0 ≡ ok tt
      → IsCompacted vfs sn s (compact_locked vfs sn created_by s).1
  unfolding compact_locked
  compact_locked-IsCompacted vfs sn created_by s named a h = record {
    nothing = λ t. ground (arith, t);
    changes = λ t.
        let e : compact_locked vfs sn created_by s
            ≡ install vfs sn created_by (fold sn s.writer) s =
          ground (arith, t) in
        rw e (install-IsFolded vfs sn created_by s named a (ap (λ o. o.0) (sym e) ∙ h));
  }
