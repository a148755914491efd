-- ===== src/Persist/Store/Recover/Sound.antt =====
-- What the replay of `open_with_vfs` in src/persist/mod.rs has done when it succeeds, on any records.
use orpheusgraph.Prelude.{
  string_eq, subst, ℕ, ◌+◌, ◌%◌, ◌^◌, ◌≡◌, ◌<◌, ◌≤◌, sym, ap, ◌∙◌, true, false, ◌&&◌, String, List,
  [], ◌∷◌, ltb, leb, if◌then◌else◌, nat_eq, arith, Bool-cases, inl, inr,
}
use native.Mathlib.Nat.{mod-eq_of_lt}
use orpheusgraph.IndexMap.{IndexMap}
use orpheusgraph.Types.{NodeData}
use orpheusgraph.Accessor.{GraphAccessor}
use orpheusgraph.Delta.Defs
use orpheusgraph.Delta.Defs.{GraphDelta}
use orpheusgraph.Delta.Apply.{replay}
use orpheusgraph.Persist.Crc.{Crc32}
use orpheusgraph.Persist.Error.{ok, Result-cases}
use orpheusgraph.Persist.Wal.Frame.{WalRecord, Postcard, ScanResult, encode_frame}
use orpheusgraph.Persist.Store.Recover.{
  Replay, start, replay_frame, recover_frame, recover_frames, check_recovered, recover,
}

-- the records that are committed and not folded into the snapshot
abbrev pub live : (snapshot_seq commit_hw : ℕ) → List WalRecord → List WalRecord
live snap hw [] = []
live snap hw (rec ∷ recs) =
    let rest = live snap hw recs in if leb rec.seq hw && ltb snap rec.seq then rec ∷ rest else rest

-- the number of records beyond the marker
abbrev pub beyond : (commit_hw : ℕ) → List WalRecord → ℕ
beyond hw [] = 0
beyond hw (rec ∷ recs) = let rest = beyond hw recs in if ltb hw rec.seq then 1 + rest else rest

-- The records are numbered one after the other, from the number after `first` to `last`.
abbrev pub IsConsecutive : (first : ℕ) → List WalRecord → (last : ℕ) → Type 0
IsConsecutive first [] last = first ≡ last
IsConsecutive first (rec ∷ recs) last = (rec.seq ≡ first + 1) × IsConsecutive rec.seq recs last

module _ ⦃im : IndexMap String NodeData⦄ where
  -- the records replayed in order
  abbrev pub replay_all : GraphAccessor → List WalRecord → GraphDelta → GraphDelta
  replay_all base [] d = d
  replay_all base (rec ∷ recs) d = replay_all base recs (replay base rec.ops d)

module _ (E : Type 0) ⦃im : IndexMap String NodeData⦄ ⦃crc : Crc32⦄ ⦃pc : Postcard⦄ where
  -- what one round has done
  record IsRound (base : GraphAccessor) (snap hw : ℕ) (rec : WalRecord) (r r1 : Replay)
      : Type 0 where
    pub skipped :
        (leb rec.seq hw && ltb snap rec.seq) ≡ false
        → (r1.delta ≡ r.delta)
          × ((r1.last_applied ≡ r.last_applied) × (r1.expected_next ≡ r.expected_next))
    pub applied :
        (leb rec.seq hw && ltb snap rec.seq) ≡ true
        → (r1.delta ≡ replay base rec.ops r.delta)
          × ((r1.last_applied ≡ rec.seq)
              × ((rec.seq ≡ r.expected_next) × (r1.expected_next ≡ (r.expected_next + 1) % 2 ^ 64)))
    pub counted :
        r1.uncommitted_tail_frames
        ≡ (if ltb hw rec.seq then r.uncommitted_tail_frames + 1 else r.uncommitted_tail_frames)

  recover_frame-IsRound :
      (base : GraphAccessor) (snap hw : ℕ) (rec : WalRecord) (r r1 : Replay)
      → recover_frame {E = E} base snap hw rec r ≡ ok r1
      → IsRound base snap hw rec r r1
  unfolding recover_frame replay_frame
  recover_frame-IsRound base snap hw rec r r1 h = elim (Result-cases (encode_frame {E = E} rec)) [
    | inl (e, q) ↦ record {
      skipped = λ t. ground (arith, h, q, t);
      applied = λ t. ground (arith, h, q, t);
      counted = ground (arith, h, q);
    }
    | inr (frame, q) ↦ record {
      skipped = λ t. ground (arith, h, q, t);
      applied = λ t. ground (arith, h, q, t);
      counted = ground (arith, h, q);
    }
  ]

  -- what the loop has done
  pub record IsReplayed (base : GraphAccessor) (snap hw : ℕ) (recs : List WalRecord) (r r1 : Replay)
      : Type 0 where
    pub delta : r1.delta ≡ replay_all base (live snap hw recs) r.delta
    pub run : IsConsecutive r.last_applied (live snap hw recs) r1.last_applied
    pub next : r1.expected_next ≡ r1.last_applied + 1
    pub upto : r1.last_applied ≤ hw
    pub counted : r1.uncommitted_tail_frames ≡ r.uncommitted_tail_frames + beyond hw recs

  IsRound-IsReplayed :
      (base : GraphAccessor) (snap hw : ℕ) (rec : WalRecord) (recs : List WalRecord)
      (r r1 r2 : Replay)
      → r.expected_next ≡ r.last_applied + 1
      → IsRound base snap hw rec r r1
      → IsReplayed base snap hw recs r1 r2
      → IsReplayed base snap hw (rec ∷ recs) r r2
  IsRound-IsReplayed base snap hw rec recs r r1 r2 e round rest =
      let counted : r2.uncommitted_tail_frames
          ≡ r.uncommitted_tail_frames + beyond hw (rec ∷ recs) =
        ground (arith, round.counted, rest.counted) in
      elim (Bool-cases (leb rec.seq hw && ltb snap rec.seq)) [
        | inl t ↦
            let a = round.applied t in
            record {
              delta = rw t (rest.delta ∙ ap (replay_all base (live snap hw recs)) a.0);
              run = rw t (
                a.1.1.0 ∙ e,
                subst (λ n. IsConsecutive n (live snap hw recs) r2.last_applied) a.1.0 rest.run,
              );
              next = rest.next;
              upto = rest.upto;
              counted = counted;
            }
        | inr t ↦
            let a = round.skipped t in
            record {
              delta = rw t (rest.delta ∙ ap (replay_all base (live snap hw recs)) a.0);
              run =
                  rw t (
                    subst (λ n. IsConsecutive n (live snap hw recs) r2.last_applied) a.1.0
                      rest.run);
              next = rest.next;
              upto = rest.upto;
              counted = counted;
            }
      ]

  recover_frames-IsReplayed :
      (base : GraphAccessor) (snap hw : ℕ) (recs : List WalRecord) (r r1 : Replay)
      → r.expected_next ≡ r.last_applied + 1
      → r.last_applied ≤ hw
      → hw + 1 < 2 ^ 64
      → recover_frames {E = E} base snap hw recs r ≡ ok r1
      → IsReplayed base snap hw recs r r1
  unfolding recover_frames
  recover_frames-IsReplayed base snap hw [] r r1 e upto room h =
      let same : r ≡ r1 = ground (arith, h) in
      record {
        delta = ap (λ x. x.delta) (sym same);
        run = ap (λ x. x.last_applied) same;
        next = ap (λ x. x.expected_next) (sym same) ∙ (e ∙ ap (λ x. x.last_applied + 1) same);
        upto = omega (arith, upto, ap (λ x. x.last_applied) same);
        counted = omega (arith, ap (λ x. x.uncommitted_tail_frames) same);
      }
  recover_frames-IsReplayed base snap hw (rec ∷ recs) r r1 e upto room h =
      elim (Result-cases (recover_frame {E = E} base snap hw rec r)) [
        | inl (x, q) ↦ ground (arith, h, q)
        | inr (r0, q) ↦
            let round = recover_frame-IsRound base snap hw rec r r0 q in
            let more : recover_frames {E = E} base snap hw recs r0 ≡ ok r1 = ground (arith, h, q) in
            let fits : (rec.seq ≤ hw) → (rec.seq + 1) % 2 ^ 64 ≡ rec.seq + 1 =
              λ l. mod-eq_of_lt (omega (arith, l, room)) in
            let low : r0.last_applied ≤ hw = ground (arith, round.skipped, round.applied, upto) in
            let next : r0.expected_next ≡ r0.last_applied + 1 =
              ground (arith, round.skipped, round.applied, e, fits) in
            IsRound-IsReplayed base snap hw rec recs r r0 r1 e round
              (recover_frames-IsReplayed base snap hw recs r0 r1 next low room more)
      ]

  check_recovered-ok :
      (hw valid_end : ℕ) (r r1 : Replay)
      → check_recovered {E = E} hw valid_end r ≡ ok r1
      → (r ≡ r1) × ((hw ≤ r.last_applied) × (r.committed_end ≤ valid_end))
  unfolding check_recovered
  check_recovered-ok hw valid_end r r1 h =
      (ground (arith, h), (ground (arith, h), ground (arith, h)))

  -- Whatever records the scan gave, a recovery that succeeds stands at the marker: the records
  -- between the snapshot and the marker are numbered one after the other without a gap, the delta is
  -- their replay over the empty one, the records beyond the marker are counted and no more, and the
  -- end of the committed bytes lies in the intact part of the log.
  pub recover-IsReplayed :
      (base : GraphAccessor) (snap hw : ℕ) (scan : ScanResult) (r : Replay)
      → snap ≤ hw
      → hw + 1 < 2 ^ 64
      → recover {E = E} base snap hw scan ≡ ok r
      → (r.delta ≡ replay_all base (live snap hw scan.records) Defs.new)
        × ((IsConsecutive snap (live snap hw scan.records) hw)
            × ((r.last_applied ≡ hw)
                × ((r.uncommitted_tail_frames ≡ beyond hw scan.records)
                    × (r.committed_end ≤ scan.valid_end))))
  unfolding recover start
  recover-IsReplayed base snap hw scan r low room h =
      elim (Result-cases (recover_frames {E = E} base snap hw scan.records (start snap))) [
        | inl (e, q) ↦ ground (arith, h, q)
        | inr (r0, q) ↦
            let first : (snap + 1) % 2 ^ 64 ≡ snap + 1 = mod-eq_of_lt (omega (arith, low, room)) in
            let i =
              recover_frames-IsReplayed base snap hw scan.records (start snap) r0 first low room
                q in
            let checked : check_recovered {E = E} hw scan.valid_end r0 ≡ ok r =
              ground (arith, h, q) in
            let (same, (reached, inside)) = check_recovered-ok hw scan.valid_end r0 r checked in
            let at_marker : r0.last_applied ≡ hw = omega (arith, reached, i.upto) in
            (
              ap (λ x. x.delta) (sym same) ∙ i.delta,
              (
                subst (IsConsecutive snap (live snap hw scan.records)) at_marker i.run,
                (
                  ap (λ x. x.last_applied) (sym same) ∙ at_marker,
                  (
                    omega (arith, ap (λ x. x.uncommitted_tail_frames) same, i.counted),
                    omega (arith, inside, ap (λ x. x.committed_end) same),
                  ),
                ),
              ),
            )
      ]
