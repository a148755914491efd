-- ===== src/Persist/Store/Recover/Complete.antt =====
-- The replay of `open_with_vfs` in src/persist/mod.rs on a log whose records are numbered one after the
-- other.
use orpheusgraph.Prelude.{
  string_eq, subst, ℕ, ◌+◌, ◌%◌, ◌^◌, ◌≡◌, ◌<◌, ◌≤◌, refl, sym, ap, ◌∙◌, true, false, String, List,
  [], ◌∷◌, ◌++◌, ltb, leb, length, if◌then◌else◌, nat_eq, arith, Bool-cases, inl, inr,
  length-append, append_assoc,
}
use native.Mathlib.Nat.{mod-eq_of_lt}
use orpheusgraph.IndexMap.{IndexMap}
use orpheusgraph.Types.{NodeData}
use orpheusgraph.Accessor.{GraphAccessor}
use orpheusgraph.Delta.Apply.{replay}
use orpheusgraph.Persist.Bytes.{Bytes}
use orpheusgraph.Persist.Crc.{Crc32}
use orpheusgraph.Persist.Error.{ok}
use orpheusgraph.Persist.Wal.Frame.{WalRecord, Postcard, encode_frame}
use orpheusgraph.Persist.Wal.Scan.{whole, log_of, log_of-split}
use orpheusgraph.Persist.Store.Recover.{
  Replay, start, replay_frame, recover_frame, recover_frames, check_recovered, recover,
}
use orpheusgraph.Persist.Store.Recover.Sound.{IsConsecutive}

-- the records that the marker covers
abbrev pub committed : (commit_hw : ℕ) → List WalRecord → List WalRecord
committed hw [] = []
committed hw (rec ∷ recs) =
    let rest = committed hw recs in if ltb hw rec.seq then rest else rec ∷ rest

-- the number that the replay has reached after the record `n`
abbrev reached : (snap hw n : ℕ) → ℕ
reached snap hw n = if ltb n snap then snap else if ltb hw n then hw else n

pub committed-nil :
    (hw n last : ℕ) (recs : List WalRecord)
    → hw ≤ n
    → IsConsecutive n recs last
    → committed hw recs ≡ []
committed-nil hw n last [] h c = refl
committed-nil hw n last (rec ∷ recs) h (e, c) =
    let rest = committed-nil hw rec.seq last recs (omega (arith, e, h)) c in
    ground (arith, e, h, rest)

module _ (E : Type 0) ⦃im : IndexMap String NodeData⦄ ⦃crc : Crc32⦄ ⦃pc : Postcard⦄ where
  -- where the loop stands after the record `n`
  record IsAt (snap hw n : ℕ) (r : Replay) : Type 0 where
    pub last : r.last_applied ≡ reached snap hw n
    pub next : r.expected_next ≡ r.last_applied + 1

  -- one round on the next record: the bytes of a committed one are counted, and it goes on
  record Onward (base : GraphAccessor) (snap hw : ℕ) (rec : WalRecord) (size : ℕ) (r : Replay)
      : Type 0 where
    pub after : Replay
    pub run : recover_frame {E = E} base snap hw rec r ≡ ok after
    pub stands : IsAt snap hw rec.seq after
    pub end :
        after.committed_end ≡ (if ltb hw rec.seq then r.committed_end else r.committed_end + size)

  next_beyond :
      (base : GraphAccessor) (snap hw n : ℕ) (rec : WalRecord) (frame : Bytes) (r : Replay)
      → snap ≤ hw
      → rec.seq ≡ n + 1
      → ltb hw rec.seq ≡ true
      → IsAt snap hw n r
      → Onward base snap hw rec (length frame) r
  unfolding recover_frame
  next_beyond base snap hw n rec frame r low e t i = record {
    after = record r { uncommitted_tail_frames = r.uncommitted_tail_frames + 1 };
    run = ground (arith, t);
    stands = record { last = ground (arith, i.last, e, t, low); next = i.next };
    end = ground (arith, t);
  }

  next_folded :
      (base : GraphAccessor) (snap hw n : ℕ) (rec : WalRecord) (frame : Bytes) (r : Replay)
      → snap ≤ hw
      → rec.seq ≡ n + 1
      → ltb hw rec.seq ≡ false
      → leb rec.seq snap ≡ true
      → encode_frame {E = E} rec ≡ ok frame
      → r.committed_end + length frame < 2 ^ 64
      → IsAt snap hw n r
      → Onward base snap hw rec (length frame) r
  unfolding recover_frame replay_frame
  next_folded base snap hw n rec frame r low e t u q room i = record {
    after = record r { committed_end = (r.committed_end + length frame) % 2 ^ 64 };
    run = ground (arith, t, u, q);
    stands = record { last = ground (arith, i.last, e, t, u, low); next = i.next };
    end = rw t (mod-eq_of_lt room);
  }

  next_live :
      (base : GraphAccessor) (snap hw n : ℕ) (rec : WalRecord) (frame : Bytes) (r : Replay)
      → hw + 1 < 2 ^ 64
      → rec.seq ≡ n + 1
      → ltb hw rec.seq ≡ false
      → leb rec.seq snap ≡ false
      → encode_frame {E = E} rec ≡ ok frame
      → r.committed_end + length frame < 2 ^ 64
      → IsAt snap hw n r
      → Onward base snap hw rec (length frame) r
  unfolding recover_frame replay_frame
  next_live base snap hw n rec frame r small e t u q room i =
      let here : rec.seq ≡ r.expected_next = ground (arith, i.last, i.next, e, t, u) in
      let fits : (r.expected_next + 1) % 2 ^ 64 ≡ rec.seq + 1 =
        ap (λ k. (k + 1) % 2 ^ 64) (sym here) ∙ mod-eq_of_lt (ground (arith, t, small)) in
      record {
        after = record r {
          committed_end = (r.committed_end + length frame) % 2 ^ 64;
          delta = replay base rec.ops r.delta;
          last_applied = rec.seq;
          expected_next = (r.expected_next + 1) % 2 ^ 64;
        };
        run = ground (arith, t, u, q, here);
        stands = record { last = ground (arith, e, t, u); next = fits };
        end = rw t (mod-eq_of_lt room);
      }

  recover_frame-Onward :
      (base : GraphAccessor) (snap hw n : ℕ) (rec : WalRecord) (frame : Bytes) (r : Replay)
      → snap ≤ hw
      → hw + 1 < 2 ^ 64
      → rec.seq ≡ n + 1
      → encode_frame {E = E} rec ≡ ok frame
      → r.committed_end + length frame < 2 ^ 64
      → IsAt snap hw n r
      → Onward base snap hw rec (length frame) r
  recover_frame-Onward base snap hw n rec frame r low small e q room i =
      elim (Bool-cases (ltb hw rec.seq)) [
        | inl t ↦ next_beyond base snap hw n rec frame r low e t i
        | inr t ↦ elim (Bool-cases (leb rec.seq snap)) [
          | inl u ↦ next_folded base snap hw n rec frame r low e t u q room i
          | inr u ↦ next_live base snap hw n rec frame r small e t u q room i
        ]
      ]

  -- The bytes of the committed records stand at the front of the log.
  pub record IsCut (hw : ℕ) (recs : List WalRecord) (log : Bytes) : Type 0 where
    pub head : Bytes
    pub tail : Bytes
    pub logged : log_of {E = E} (committed hw recs) ≡ ok head
    pub split : log ≡ head ++ tail

  cut_frame :
      (hw n last : ℕ) (rec : WalRecord) (recs : List WalRecord) (frame rest : Bytes)
      → rec.seq ≡ n + 1
      → IsConsecutive rec.seq recs last
      → encode_frame {E = E} rec ≡ ok frame
      → IsCut hw recs rest
      → IsCut hw (rec ∷ recs) (frame ++ rest)
  cut_frame hw n last rec recs frame rest e c q i = elim (Bool-cases (ltb hw rec.seq)) [
    | inl t ↦
        let none_left = committed-nil hw rec.seq last recs (ground (arith, t)) c in
        record { head = []; tail = frame ++ rest; logged = rw (t, none_left) refl; split = refl }
    | inr t ↦ record {
      head = frame ++ i.head;
      tail = i.tail;
      logged = ground (arith, t, q, i.logged);
      split = ap (λ bs. frame ++ bs) i.split ∙ sym (append_assoc frame i.head i.tail);
    }
  ]

  pub log_of-IsCut :
      (hw n last : ℕ) (recs : List WalRecord) (log : Bytes)
      → IsConsecutive n recs last
      → log_of {E = E} recs ≡ ok log
      → IsCut hw recs log
  log_of-IsCut hw n last [] log c h = record { head = []; tail = log; logged = refl; split = refl }
  log_of-IsCut hw n last (rec ∷ recs) log (e, c) h =
      let (frame, (rest, (q, (hr, split)))) = log_of-split rec recs log h in
      subst (IsCut hw (rec ∷ recs)) (sym split) (
        cut_frame hw n last rec recs frame rest e c q (log_of-IsCut hw rec.seq last recs rest c hr))

  -- the loop ends well
  record Ends (base : GraphAccessor) (snap hw last : ℕ) (recs : List WalRecord) (r : Replay)
      : Type 0 where
    pub after : Replay
    pub run : recover_frames {E = E} base snap hw recs r ≡ ok after
    pub stands : IsAt snap hw last after
    pub end :
        (head : Bytes)
        → log_of {E = E} (committed hw recs) ≡ ok head
        → after.committed_end ≡ r.committed_end + length head

  end_frame :
      (hw : ℕ) (rec : WalRecord) (recs : List WalRecord) (frame : Bytes) (a b c : ℕ)
      → encode_frame {E = E} rec ≡ ok frame
      → b ≡ (if ltb hw rec.seq then a else a + length frame)
      → ((head : Bytes) → log_of {E = E} (committed hw recs) ≡ ok head → c ≡ b + length head)
      → (head : Bytes) → log_of {E = E} (committed hw (rec ∷ recs)) ≡ ok head
      → c ≡ a + length head
  end_frame hw rec recs frame a b c q e more head k = elim (Bool-cases (ltb hw rec.seq)) [
    | inl t ↦
        let k1 : log_of {E = E} (committed hw recs) ≡ ok head = ground (arith, k, t) in
        ground (arith, more head k1, e, t)
    | inr t ↦
        let k1 : log_of {E = E} (rec ∷ committed hw recs) ≡ ok head = ground (arith, k, t) in
        let (f, (rest, (qf, (hr, split)))) = log_of-split rec (committed hw recs) head k1 in
        let same : f ≡ frame = ground (arith, q, qf) in
        let size = ap length split ∙ length-append f rest in
        ground (arith, more rest hr, e, t, size, same)
  ]

  recover_frames-Ends :
      (base : GraphAccessor) (snap hw n last : ℕ) (recs : List WalRecord) (log : Bytes) (r : Replay)
      → snap ≤ hw
      → hw + 1 < 2 ^ 64
      → IsConsecutive n recs last
      → log_of {E = E} recs ≡ ok log
      → r.committed_end + length log < 2 ^ 64
      → IsAt snap hw n r
      → Ends base snap hw last recs r
  unfolding recover_frames
  recover_frames-Ends base snap hw n last [] log r low small c h room i = record {
    after = r;
    run = refl;
    stands = subst (λ k. IsAt snap hw k r) c i;
    end = λ head q. ground (arith, q);
  }
  recover_frames-Ends base snap hw n last (rec ∷ recs) log r low small (e, c) h room i =
      let (frame, (rest, (q, (hr, split)))) = log_of-split rec recs log h in
      let size : length log ≡ length frame + length rest =
        ap length split ∙ length-append frame rest in
      let s =
        recover_frame-Onward base snap hw n rec frame r low small e q (omega (arith, room, size))
          i in
      let room1 : s.after.committed_end + length rest < 2 ^ 64 =
        ground (arith, s.end, room, size) in
      let more =
        recover_frames-Ends base snap hw rec.seq last recs rest s.after low small c hr room1
          s.stands in
      record {
        after = more.after;
        run = ground (arith, s.run, more.run);
        stands = more.stands;
        end = λ head k.
            end_frame hw rec recs frame r.committed_end s.after.committed_end
              more.after.committed_end q s.end more.end head k;
      }

  -- What a recovery of such a log gives.
  pub record IsRecovered (base : GraphAccessor) (snap hw : ℕ) (recs : List WalRecord) (log : Bytes)
      : Type 0 where
    pub found : Replay
    pub run : recover {E = E} base snap hw (whole recs (length log)) ≡ ok found
    pub cut : IsCut hw recs log
    pub end : found.committed_end ≡ length cut.head
    pub last : found.last_applied ≡ hw

  -- A log of records numbered one after the other, from the snapshot's number or one before it up to
  -- the marker or beyond, is recovered: there is no error, the last record applied is the marker's, and
  -- the end of the committed bytes is that of the frames up to the marker.
  pub recover-IsRecovered :
      (base : GraphAccessor) (snap hw first last : ℕ) (recs : List WalRecord) (log : Bytes)
      → first ≤ snap
      → snap ≤ hw
      → hw ≤ last
      → hw + 1 < 2 ^ 64
      → IsConsecutive first recs last
      → log_of {E = E} recs ≡ ok log
      → length log < 2 ^ 64
      → IsRecovered base snap hw recs log
  unfolding recover start check_recovered
  recover-IsRecovered base snap hw first last recs log early low late small c h room =
      let zero_end : 0 + length log < 2 ^ 64 = omega (arith, room) in
      let at_start : IsAt snap hw first (start snap) = record {
        last = ground (arith, early);
        next = mod-eq_of_lt (omega (arith, low, small));
      } in
      let i =
        recover_frames-Ends base snap hw first last recs log (start snap) low small c h zero_end
          at_start in
      let cut = log_of-IsCut hw first last recs log c h in
      let end : i.after.committed_end ≡ length cut.head =
        omega (arith, i.end cut.head cut.logged) in
      let at_marker : i.after.last_applied ≡ hw = ground (arith, i.stands.last, low, late) in
      let size = ap length cut.split ∙ length-append cut.head cut.tail in
      record {
        found = i.after;
        run = ground (arith, i.run, at_marker, end, size);
        cut = cut;
        end = end;
        last = at_marker;
      }
