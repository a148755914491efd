-- ===== src/Persist/Store/Batch/Logged.antt =====
-- What the log holds while src/persist/mod.rs takes batches.
use orpheusgraph.Prelude.{
  string_eq, subst, ℕ, ◌+◌, ◌%◌, ◌^◌, ◌≡◌, ◌<◌, ◌≤◌, refl, sym, ap, ◌∙◌, Bool, true, false, Option,
  none, Option-cases, some, List, [], ◌∷◌, ◌++◌, String, arith, inl, inr, append_assoc, append-nil,
}
use native.Mathlib.Nat.{mod-eq_of_lt}
use orpheusgraph.IndexMap.{IndexMap}
use orpheusgraph.Types.{NodeData}
use orpheusgraph.Accessor.{GraphAccessor}
use orpheusgraph.Delta.Defs
use orpheusgraph.Delta.Defs.{Op, GraphDelta}
use orpheusgraph.Delta.Apply
use orpheusgraph.Delta.Apply.{replay, validate}
use orpheusgraph.HashMap
use orpheusgraph.Persist.Bytes.{Bytes}
use orpheusgraph.Persist.Crc.{Crc32}
use orpheusgraph.Persist.Error.{PersistError, ok}
use orpheusgraph.Persist.Vfs.{VfsFile}
use orpheusgraph.Persist.Wal.Frame.{WalRecord, Postcard, encode_frame}
use orpheusgraph.Persist.Wal.Scan.{log_of, log_of-split}
use orpheusgraph.Persist.Wal.Appended.{Holds, append-Holds}
use orpheusgraph.Persist.Store.State.{Snapshots, as_accessor, Writer, marked, advance_commit}
use orpheusgraph.Persist.Store.Batch.{
  seal, reflect, log_batch, apply_to_clone, check_seq, write_batch,
}
use orpheusgraph.Persist.Commit.File.{CommitFile, advance}
use orpheusgraph.Persist.Program.{fail_if, and_then-Went}
use orpheusgraph.Persist.Wal.Writer.{WalWriter, append}
use orpheusgraph.Persist.Store.Recover.Sound.{live, IsConsecutive, replay_all}

live_upto :
    (snap first last hw : ℕ) (recs : List WalRecord)
    → IsConsecutive first recs last
    → last ≤ hw
    → (first ≤ last) × (live snap hw recs ≡ live snap last recs)
live_upto snap first last hw [] c h = (omega (arith, c), refl)
live_upto snap first last hw (rec ∷ recs) (e, c) h =
    let (up, same) = live_upto snap rec.seq last hw recs c h in
    (omega (arith, e, up), ground (arith, e, up, same, h))

live_snoc :
    (snap hw : ℕ) (recs : List WalRecord) (rec : WalRecord)
    → rec.seq ≤ hw
    → snap < rec.seq
    → live snap hw (recs ++ (rec ∷ [])) ≡ live snap hw recs ++ (rec ∷ [])
live_snoc snap hw [] rec h l = ground (arith, h, l)
live_snoc snap hw (r ∷ recs) rec h l = ground (arith, live_snoc snap hw recs rec h l)

IsConsecutive-snoc :
    (first last : ℕ) (recs : List WalRecord) (rec : WalRecord)
    → IsConsecutive first recs last
    → rec.seq ≡ last + 1
    → IsConsecutive first (recs ++ (rec ∷ [])) (last + 1)
IsConsecutive-snoc first last [] rec c h = (h ∙ ap (λ n. n + 1) (sym c), h)
IsConsecutive-snoc first last (r ∷ recs) rec (e, c) h =
    (e, IsConsecutive-snoc r.seq last recs rec c h)

module _ ⦃im : IndexMap String NodeData⦄ where
  replay_all-append :
      (base : GraphAccessor) (xs ys : List WalRecord) (d : GraphDelta)
      → replay_all base (xs ++ ys) d ≡ replay_all base ys (replay_all base xs d)
  replay_all-append base [] ys d = refl
  replay_all-append base (x ∷ xs) ys d = replay_all-append base xs ys (replay base x.ops d)

module _ {E : Type 0} ⦃crc : Crc32⦄ ⦃pc : Postcard⦄ where
  log_of-snoc :
      (recs : List WalRecord) (log : Bytes) (rec : WalRecord) (frame : Bytes)
      → log_of {E = E} recs ≡ ok log
      → encode_frame {E = E} rec ≡ ok frame
      → log_of {E = E} (recs ++ (rec ∷ [])) ≡ ok (log ++ frame)
  log_of-snoc [] log rec frame h q = ground (arith, h, q, append-nil frame)
  log_of-snoc (r ∷ recs) log rec frame h q =
      let (f, (rest, (qf, (hr, split)))) = log_of-split r recs log h in
      ground (arith, log_of-snoc recs rest rec frame hr q, qf, split, append_assoc f rest frame)

module _ (E : Type 0) ⦃im : IndexMap String NodeData⦄ where
  pub apply_to_clone-ok :
      (base : GraphAccessor) (ops : List Op) (delta d : GraphDelta)
      → apply_to_clone {E = E} base ops delta ≡ ok d
      → d ≡ replay base ops delta
  unfolding apply_to_clone Apply.apply
  apply_to_clone-ok base ops delta d h =
      elim (Option-cases (validate delta base HashMap.new 0 ops)) [
        | inl r ↦ ground (arith, h, r)
        | inr (e, r) ↦ ground (arith, h, r)
      ]

-- What the log is compared with.
pub record Body (F : Type 0) ⦃im : IndexMap String NodeData⦄ : Type 0 where
  pub wal : WalWriter F
  pub seq : ℕ
  pub delta : GraphDelta
  pub snapshot_seq : ℕ

module _ {F G V : Type 0} ⦃im : IndexMap String NodeData⦄ where
  abbrev pub body_of : Writer F G V → Body F
  body_of w = record { wal = w.wal; seq = w.seq; delta = w.delta; snapshot_seq = w.snapshot_seq }

module _ {E F G V : Type 0} ⦃im : IndexMap String NodeData⦄ where
  pub marked-ok :
      (n : ℕ) (w : Writer F G V) (out : Option (PersistError E) × CommitFile F)
      → (marked n w out).0 ≡ ok tt
      → (out.0 ≡ none) × (marked n w out ≡ (ok tt, record w { commit = out.1; durable_seq = n }))
  marked-ok n w (some x, c) h = ground (arith, h)
  marked-ok n w (none, c) h = (refl, refl)

module _ (E : Type 0) {F : Type 0} ⦃im : IndexMap String NodeData⦄ ⦃crc : Crc32⦄ ⦃pc : Postcard⦄
    ⦃vf : VfsFile E F⦄ where
  -- The log of the writer holds the frames of the records, numbered one after the other up to the
  -- writer's number, and the delta is the replay of those that the snapshot does not hold.
  pub record IsLogged (base : GraphAccessor) (k : Body F) (recs : List WalRecord) : Type 0 where
    pub first : ℕ
    pub log : Bytes
    pub logged : log_of {E = E} recs ≡ ok log
    pub holds : Holds E k.wal log
    pub early : first ≤ k.snapshot_seq
    pub folded : k.snapshot_seq ≤ k.seq
    pub consecutive : IsConsecutive first recs k.seq
    pub replayed : k.delta ≡ replay_all base (live k.snapshot_seq k.seq recs) Defs.new

  -- one more frame
  IsLogged-snoc :
      (base : GraphAccessor) (k : Body F) (recs : List WalRecord) (rec : WalRecord) (frame : Bytes)
      (wal : WalWriter F) (d : GraphDelta)
      → (i : IsLogged base k recs) → rec.seq ≡ k.seq + 1
      → encode_frame {E = E} rec ≡ ok frame
      → Holds E wal (i.log ++ frame)
      → d ≡ replay base rec.ops k.delta
      → IsLogged base (record k { wal = wal; seq = k.seq + 1; delta = d }) (recs ++ (rec ∷ []))
  IsLogged-snoc base k recs rec frame wal d i e q holds r =
      let same =
        (live_upto k.snapshot_seq i.first k.seq (k.seq + 1) recs i.consecutive (omega arith)).1 in
      record {
        first = i.first;
        log = i.log ++ frame;
        logged = log_of-snoc recs i.log rec frame i.logged q;
        holds = holds;
        early = i.early;
        folded = omega (arith, i.folded);
        consecutive = IsConsecutive-snoc i.first k.seq recs rec i.consecutive e;
        replayed =
            r
            ∙ (ap (replay base rec.ops) i.replayed
                ∙ (ap (λ l. replay base rec.ops (replay_all base l Defs.new)) (sym same)
                    ∙ (sym (
                          replay_all-append base (live k.snapshot_seq (k.seq + 1) recs) (rec ∷ [])
                            Defs.new)
                        ∙ ap (λ l. replay_all base l Defs.new)
                            (sym (
                              live_snoc k.snapshot_seq (k.seq + 1) recs rec (omega (arith, e))
                                (omega (arith, e, i.folded)))))));
      }

module _ (E : Type 0) {F G V : Type 0} ⦃im : IndexMap String NodeData⦄ ⦃crc : Crc32⦄ ⦃pc : Postcard⦄
    ⦃vf : VfsFile E F⦄ where
  seal-ok :
      (fsynced : Bool) (n : ℕ) (w : Writer F G V)
      → (seal {E = E} fsynced n w).0 ≡ ok tt
      → body_of (seal {E = E} fsynced n w).1 ≡ body_of w
  unfolding seal advance_commit
  seal-ok true n w h = ap (λ o. body_of o.1) (marked-ok n w (advance w.commit w.epoch n) h).1
  seal-ok false n w h = refl

  pub log_batch-IsLogged :
      (base : GraphAccessor) (recs : List WalRecord) (ops : List Op) (d : GraphDelta)
      (w : Writer F G V) (n : ℕ)
      → IsLogged E base (body_of w) recs
      → w.seq + 1 < 2 ^ 64
      → d ≡ replay base ops w.delta
      → (log_batch {E = E} ops d w).0 ≡ ok n
      → (n ≡ w.seq + 1)
        × IsLogged E base
            (body_of (log_batch {E = E} ops d w).1)
            (recs ++ (record { seq = w.seq + 1; ops = ops } ∷ []))
  unfolding log_batch reflect
  log_batch-IsLogged base recs ops d w n i room r h =
      let new_seq : (w.seq + 1) % 2 ^ 64 ≡ w.seq + 1 = mod-eq_of_lt room in
      let rec : WalRecord = record { seq = (w.seq + 1) % 2 ^ 64; ops = ops } in
      let encoded = and_then-Went (encode_frame {E = E} rec) w _ n h in
      let w1 : Writer F G V = record w { wal = (append {E = E} encoded.value w.wal).1 } in
      let appended = and_then-Went (append {E = E} encoded.value w.wal).0 w1 _ n encoded.rest in
      let out = seal {E = E} appended.value rec.seq w1 in
      let sealed = and_then-Went out.0 out.1 _ n appended.rest in
      let body : body_of (log_batch {E = E} ops d w).1
          ≡ record (body_of w1) { seq = w.seq + 1; delta = d } =
        ap (λ o. body_of o.1) (encoded.whole ∙ (appended.whole ∙ sealed.whole))
        ∙ (ap {B = Body F} (λ b. record b { seq = rec.seq; delta = d })
              (seal-ok appended.value rec.seq w1 sealed.answered)
            ∙ ap {B = Body F} (λ k. record (body_of w1) { seq = k; delta = d }) new_seq) in
      let number : rec.seq ≡ n = ground (arith, sealed.rest) in
      let held =
        append-Holds E encoded.value w.wal appended.value i.log i.holds appended.answered in
      let logged =
        IsLogged-snoc E base (body_of w) recs rec encoded.value w1.wal d i new_seq encoded.answered
          held r in
      (
        sym number ∙ new_seq,
        subst (λ b. IsLogged E base b (recs ++ (record { seq = w.seq + 1; ops = ops } ∷ [])))
            (sym body)
            (subst
              (λ k.
                IsLogged E base (record (body_of w1) { seq = w.seq + 1; delta = d })
                  (recs ++ (record { seq = k; ops = ops } ∷ [])))
              new_seq logged),
      )

  -- A batch that is answered with a number takes the next one: the frame with the batch is behind
  -- the log, the delta is the one before it with the batch replayed, and so still the replay of the
  -- log's records over the snapshot.
  pub write_batch-IsLogged :
      {D : Type 0} (sn : Snapshots E D G V) (base : GraphAccessor) (recs : List WalRecord)
      (ops : List Op) (expected : Option ℕ) (w : Writer F G V) (n : ℕ)
      → as_accessor sn w.base ≡ base
      → IsLogged E base (body_of w) recs
      → w.seq + 1 < 2 ^ 64
      → (write_batch sn ops expected w).0 ≡ ok n
      → (n ≡ w.seq + 1)
        × IsLogged E base
            (body_of (write_batch sn ops expected w).1)
            (recs ++ (record { seq = w.seq + 1; ops = ops } ∷ []))
  unfolding write_batch
  write_batch-IsLogged sn base recs ops expected w n b i room h =
      let sound = and_then-Went (fail_if w.wal.poisoned PersistError.poisoned w).0 w _ n h in
      let expected_it = and_then-Went (check_seq expected w.seq) w _ n sound.rest in
      let checked =
        and_then-Went (apply_to_clone (as_accessor sn w.base) ops w.delta) w _ n expected_it.rest in
      let run : write_batch sn ops expected w ≡ log_batch ops checked.value w =
        sound.whole ∙ (expected_it.whole ∙ checked.whole) in
      let d =
        apply_to_clone-ok E base ops w.delta checked.value
          (ap (λ a. apply_to_clone a ops w.delta) (sym b) ∙ checked.answered) in
      let done = log_batch-IsLogged base recs ops checked.value w n i room d checked.rest in
      (
        done.0,
        subst
            (λ o.
              IsLogged E base (body_of o.1) (recs ++ (record { seq = w.seq + 1; ops = ops } ∷ [])))
            (sym run) done.1,
      )
