-- ===== src/Persist/Store/Reopened.antt =====
-- The log of a store that `open_with_vfs` of src/persist/mod.rs has recovered.
use orpheusgraph.Prelude.{
  string_eq, subst, ℕ, ◌+◌, ◌≡◌, ◌<◌, ◌≤◌, ◌^◌, refl, sym, ap, ◌∙◌, true, List, [], ◌∷◌, ◌++◌,
  String, length, arith, Bool-cases, inl, inr, ltb, max,
}
use orpheusgraph.IndexMap.{IndexMap}
use orpheusgraph.Types.{NodeData}
use orpheusgraph.Delta.Defs
use orpheusgraph.Persist.Bytes.{Bytes}
use orpheusgraph.Persist.Crc.{Crc32}
use orpheusgraph.Persist.Error.{PersistError, ok}
use orpheusgraph.Persist.Program.{fail_if, and_then-Went}
use orpheusgraph.Persist.Vfs.{VfsFile}
use orpheusgraph.Persist.Manifest.{Manifest, Json}
use orpheusgraph.Persist.Commit.Slot.{CommitRecord}
use orpheusgraph.Persist.Commit.File.{CommitFile}
use orpheusgraph.Persist.Wal.Frame.{WalRecord, Postcard}
use orpheusgraph.Persist.Wal.Scan.{whole, log_of}
use orpheusgraph.Persist.Store.State.{BaseGraph, as_accessor}
use orpheusgraph.Persist.Store.Create.{Host}
use orpheusgraph.Persist.Store.Recover.{recover}
use orpheusgraph.Persist.Wal.Writer
use orpheusgraph.Persist.Store.Recover.Sound.{live, IsConsecutive, replay_all, recover-IsReplayed}
use orpheusgraph.Persist.Store.Recover.Complete.{committed, committed-nil, recover-IsRecovered}
use orpheusgraph.Persist.Store.Batch.Logged.{IsLogged, body_of}
use orpheusgraph.Persist.Store.Open.{Options, Recovered, settle, recover_with, reopened_writer}
use orpheusgraph.Persist.Store.Cut.{Keeps, settle-Settled}

-- what the marker covers is numbered up to the marker, and nothing of it that counts is lost
committed-IsConsecutive :
    (first last hw : ℕ) (recs : List WalRecord)
    → first ≤ hw
    → hw ≤ last
    → IsConsecutive first recs last
    → IsConsecutive first (committed hw recs) hw
committed-IsConsecutive first last hw [] lo hi c = omega (arith, lo, hi, c)
committed-IsConsecutive first last hw (rec ∷ recs) lo hi (e, c) =
    elim (Bool-cases (ltb hw rec.seq)) [
      | inl t ↦
          let here : first ≡ hw = ground (arith, t, e, lo) in
          let nothing_left = committed-nil hw rec.seq last recs (ground (arith, t)) c in
          rw (t, nothing_left) here
      | inr t ↦ rw t (e, committed-IsConsecutive rec.seq last hw recs (ground (arith, t)) hi c)
    ]

live-committed :
    (snap hw : ℕ) (recs : List WalRecord) → live snap hw (committed hw recs) ≡ live snap hw recs
live-committed snap hw [] = refl
live-committed snap hw (rec ∷ recs) = ground (arith, live-committed snap hw recs)

module _ {E F D L G V : Type 0} ⦃im : IndexMap String NodeData⦄ ⦃crc : Crc32⦄ ⦃pc : Postcard⦄
    ⦃js : Json⦄ ⦃vf : VfsFile E F⦄ where
  -- A store that is opened over a log whose records are numbered one after the other, with the
  -- snapshot and the marker inside, has the log that its writer says again: cut to the records that
  -- the marker covers, whose replay over the snapshot is the delta.
  pub recover_with-IsLogged :
      (host : Host E F D L G V) (dir : String) (base : BaseGraph G V) (m : Manifest)
      (options : Options) (rec : CommitRecord) (first last : ℕ) (recs : List WalRecord)
      (log : Bytes) (c : CommitFile F) (f : F) (d : D) (r : Recovered)
      → first ≤ m.snapshot_seq
      → max rec.committed_seq m.snapshot_seq ≤ last
      → last + 1 < 2 ^ 64
      → IsConsecutive first recs last
      → log_of {E = E} recs ≡ ok log
      → length log < 2 ^ 64
      → vf.contents f ≡ log
      → vf.appends f ≡ true
      → (recover_with host dir base m (whole recs (length log)) rec (c, (f, d))).0 ≡ ok r
      → IsLogged E
          (as_accessor host.snapshots base)
          (body_of (
            let s = (recover_with host dir base m (whole recs (length log)) rec (c, (f, d))).1 in
            reopened_writer s.1.0 s.0 base m options r))
          (committed (max rec.committed_seq m.snapshot_seq) recs)
  unfolding recover_with reopened_writer Writer.new
  recover_with-IsLogged host dir base m options rec first last recs log c f d r early late small con
        h size held mode run =
      let hw = max rec.committed_seq m.snapshot_seq in
      let scan = whole recs (length log) in
      let view = as_accessor host.snapshots base in
      let low : m.snapshot_seq ≤ hw = omega arith in
      let bound : hw + 1 < 2 ^ 64 = omega (arith, late, small) in
      let s : CommitFile F × (F × D) = (c, (f, d)) in
      let fine =
        and_then-Went
          (fail_if (ltb hw m.high_seq) (PersistError.corrupt "inconsistent durable pointers") s).0 s
          _ r run in
      let found = and_then-Went (recover view m.snapshot_seq hw scan) s _ r fine.rest in
      let i =
        recover-IsRecovered E view m.snapshot_seq hw first last recs log early low late bound con h
          size in
      let sound =
        recover-IsReplayed E view m.snapshot_seq hw scan found.value low bound found.answered in
      let same : i.found ≡ found.value = ground (arith, sym i.run ∙ found.answered) in
      let keeps : Keeps E f (i.cut.head ++ i.cut.tail) = record {
        contents = held ∙ i.cut.split;
        append_mode = mode;
      } in
      let t =
        settle-Settled host dir m scan hw found.value c f d i.cut.head i.cut.tail r keeps
          (ap (λ x. x.committed_end) (sym same) ∙ i.end) found.rest in
      let out : (recover_with host dir base m scan rec s).1.1.0
          ≡ (settle host dir m scan hw found.value s).1.1.0 =
        ap (λ o. o.1.1.0) (fine.whole ∙ found.whole) in
      let at_hw : r.replay.last_applied ≡ hw =
        ap (λ x. x.last_applied) t.same_replay ∙ sound.1.1.0 in
      record {
        first = first;
        log = i.cut.head;
        logged = i.cut.logged;
        holds = record {
          on_file = ap vf.contents out ∙ t.keeps.contents;
          append_mode = ap vf.appends out ∙ t.keeps.append_mode;
        };
        early = early;
        folded = omega (arith, at_hw, low);
        consecutive =
            subst (IsConsecutive first (committed hw recs)) (sym at_hw)
              (committed-IsConsecutive first last hw recs (omega (arith, early, low)) late con);
        replayed =
            ap (λ x. x.delta) t.same_replay
            ∙ (sound.0
                ∙ (ap (λ l. replay_all view l Defs.new)
                      (sym (live-committed m.snapshot_seq hw recs))
                    ∙ ap (λ n. replay_all view (live m.snapshot_seq n (committed hw recs)) Defs.new)
                        (sym at_hw)));
      }
