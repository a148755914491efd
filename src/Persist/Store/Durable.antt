-- ===== src/Persist/Store/Durable.antt =====
-- A batch that src/persist/mod.rs acknowledges under `EveryBatch`.
use orpheusgraph.Prelude.{
  string_eq, subst, ℕ, ◌+◌, ◌%◌, ◌^◌, ◌≡◌, ◌<◌, sym, ap, ◌∙◌, Bool, true, Option, some, List, [],
  ◌∷◌, ◌++◌, String, length, arith, Option-cases, inl, inr,
}
use native.Mathlib.Nat.{mod-eq_of_lt}
use orpheusgraph.IndexMap.{IndexMap}
use orpheusgraph.Types.{NodeData}
use orpheusgraph.Accessor.{GraphAccessor}
use orpheusgraph.Delta.Defs.{Op, GraphDelta}
use orpheusgraph.Persist.Bytes.{Bytes}
use orpheusgraph.Persist.Crc.{Crc32}
use orpheusgraph.Persist.Error.{PersistError, ok}
use orpheusgraph.Persist.Program.{fail_if, and_then-Went}
use orpheusgraph.Persist.Vfs.{VfsFile}
use orpheusgraph.Persist.Commit.Select.{select}
use orpheusgraph.Persist.Wal.Frame.{WalRecord, Postcard, encode_frame}
use orpheusgraph.Persist.Wal.Writer.{
  FsyncPolicy, WalWriter, guarded, fsync_now, sync_by_policy, append,
}
use orpheusgraph.Persist.Wal.Synced.{IsSynced, append-IsSynced}
use orpheusgraph.Persist.Store.State.{Snapshots, as_accessor, Writer}
use orpheusgraph.Persist.Store.Batch.{
  seal, reflect, log_batch, apply_to_clone, check_seq, write_batch,
}
use orpheusgraph.Persist.Store.Batch.Logged.{IsLogged, body_of, write_batch-IsLogged}
use orpheusgraph.Persist.Store.Recover.Sound.{IsConsecutive}
use orpheusgraph.Persist.Store.Crash.{IsMarked, Lossless, IsLogged-Lossless, advance_commit-marker}

IsConsecutive-last :
    (first last : ℕ) (recs : List WalRecord) (rec : WalRecord)
    → IsConsecutive first (recs ++ (rec ∷ [])) last
    → rec.seq ≡ last
IsConsecutive-last first last [] rec c = c.1
IsConsecutive-last first last (r ∷ recs) rec c = IsConsecutive-last r.seq last recs rec c.1

module _ (E : Type 0) {F : Type 0} ⦃vf : VfsFile E F⦄ where
  append_synced :
      (frame : Bytes) (w : WalWriter F) (b : Bool)
      → w.policy ≡ FsyncPolicy.every_batch
      → (append {E = E} frame w).0 ≡ ok b
      → b ≡ true
  unfolding append guarded sync_by_policy fsync_now
  append_synced frame w b p h = elim (Option-cases (vf.write_all w.file frame).0) [
    | inr (e, r) ↦ ground (arith, h, r)
    | inl r ↦ elim (Option-cases (vf.sync_all (vf.write_all w.file frame).1).0) [
      | inl q ↦ ground (arith, h, r, q, p)
      | inr (e, q) ↦ ground (arith, h, r, q, p)
    ]
  ]

module _ (E : Type 0) {F G V : Type 0} ⦃im : IndexMap String NodeData⦄ ⦃crc : Crc32⦄ ⦃pc : Postcard⦄
    ⦃vf : VfsFile E F⦄ where
  -- the log and the sidecar of `w1` are synced, and the sidecar on the disk names the number `n`
  pub record Marks (w w1 : Writer F G V) (n : ℕ) : Type 0 where
    pub durable : w1.durable_seq ≡ n
    pub chosen : ℕ
    pub marker :
        select (vf.synced w1.commit.file)
        ≡ some (record { epoch = w.epoch; committed_seq = n; gen = w.commit.next_gen }, chosen)
    pub wal_synced : IsSynced E w1.wal
    pub commit_synced : vf.synced w1.commit.file ≡ vf.contents w1.commit.file

  seal-Marks :
      (n : ℕ) (w : Writer F G V)
      → IsMarked E w n
      → IsSynced E w.wal
      → (seal {E = E} true n w).0 ≡ ok tt
      → Marks w (seal {E = E} true n w).1 n
  unfolding seal
  seal-Marks n w m s h =
      let (p, (durable, (body, synced))) = advance_commit-marker E w n m h in
      record {
        durable = durable;
        chosen = p.chosen;
        marker = ap select synced ∙ p.holds;
        wal_synced = subst (λ b. IsSynced E b.wal) (sym body) s;
        commit_synced = synced;
      }

  log_batch-Marks :
      (ops : List Op) (d : GraphDelta) (w : Writer F G V) (n : ℕ)
      → w.wal.policy ≡ FsyncPolicy.every_batch
      → IsMarked E w (w.seq + 1)
      → w.seq + 1 < 2 ^ 64
      → (log_batch {E = E} ops d w).0 ≡ ok n
      → Marks w (log_batch {E = E} ops d w).1 (w.seq + 1)
  unfolding log_batch reflect
  log_batch-Marks ops d w n p m room h =
      let new_seq : (w.seq + 1) % 2 ^ 64 ≡ w.seq + 1 = mod-eq_of_lt room in
      let rec : WalRecord = record { seq = (w.seq + 1) % 2 ^ 64; ops = ops } in
      let encoded = and_then-Went (encode_frame {E = E} rec) w _ n h in
      let w1 : Writer F G V = record w { wal = (append {E = E} encoded.value w.wal).1 } in
      let appended = and_then-Went (append {E = E} encoded.value w.wal).0 w1 _ n encoded.rest in
      let synced = append_synced E encoded.value w.wal appended.value p appended.answered in
      let on_disk = append-IsSynced E encoded.value w.wal appended.value p appended.answered in
      let out = seal {E = E} appended.value rec.seq w1 in
      let sealed = and_then-Went out.0 out.1 _ n appended.rest in
      let m1 : IsMarked E w1 (w.seq + 1) = record {
        marker = m.marker;
        positioned = m.positioned;
        fits = m.fits;
        room = m.room;
      } in
      let same : out ≡ seal true (w.seq + 1) w1 =
        ap (λ b. seal b rec.seq w1) synced ∙ ap (λ k. seal true k w1) new_seq in
      let marks =
        seal-Marks (w.seq + 1) w1 m1 on_disk (ap (λ o. o.0) (sym same) ∙ sealed.answered) in
      let done : Marks w (reflect rec.seq (length ops) d (seal {E = E} true (w.seq + 1) w1).1)
          (w.seq + 1) =
        record {
          durable = marks.durable;
          chosen = marks.chosen;
          marker = marks.marker;
          wal_synced = marks.wal_synced;
          commit_synced = marks.commit_synced;
        } in
      let end : (log_batch {E = E} ops d w).1
          ≡ reflect rec.seq (length ops) d (seal true (w.seq + 1) w1).1 =
        ap (λ o. o.1) (encoded.whole ∙ (appended.whole ∙ sealed.whole))
        ∙ ap (λ o. reflect rec.seq (length ops) d o.1) same in
      subst (λ v. Marks w v (w.seq + 1)) (sym end) done

  write_batch-Marks :
      {D : Type 0} (sn : Snapshots E D G V) (ops : List Op) (expected : Option ℕ) (w : Writer F G V)
      (n : ℕ)
      → w.wal.policy ≡ FsyncPolicy.every_batch
      → IsMarked E w (w.seq + 1)
      → w.seq + 1 < 2 ^ 64
      → (write_batch sn ops expected w).0 ≡ ok n
      → Marks w (write_batch sn ops expected w).1 (w.seq + 1)
  unfolding write_batch
  write_batch-Marks sn ops expected w n p m room h =
      let sound = and_then-Went (fail_if w.wal.poisoned PersistError.poisoned w).0 w _ n h in
      let expected_it = and_then-Went (check_seq expected w.seq) w _ n sound.rest in
      let checked =
        and_then-Went (apply_to_clone (as_accessor sn w.base) ops w.delta) w _ n expected_it.rest in
      subst (λ o. Marks w o.1 (w.seq + 1)) (sym (sound.whole ∙ (expected_it.whole ∙ checked.whole)))
        (log_batch-Marks ops checked.value w n p m room checked.rest)

  -- A batch that is acknowledged under `EveryBatch` survives a crash of the machine: the log and the
  -- sidecar are synced, the sidecar on the disk names the batch's number, and the bytes of the log on the
  -- disk are recovered up to it to the delta with the batch, with no record left out.
  pub write_batch-Lossless :
      {D : Type 0} (sn : Snapshots E D G V) (base : GraphAccessor) (recs : List WalRecord)
      (ops : List Op) (expected : Option ℕ) (w : Writer F G V) (n : ℕ)
      → as_accessor sn w.base ≡ base
      → IsLogged E base (body_of w) recs
      → w.wal.policy ≡ FsyncPolicy.every_batch
      → IsMarked E w (w.seq + 1)
      → w.seq + 2 < 2 ^ 64
      → length (vf.contents (write_batch sn ops expected w).1.wal.file) < 2 ^ 64
      → (write_batch sn ops expected w).0 ≡ ok n
      → Marks w (write_batch sn ops expected w).1 (w.seq + 1)
        × Lossless E
            (vf.synced (write_batch sn ops expected w).1.wal.file)
            base
            (body_of (write_batch sn ops expected w).1)
            (recs ++ (record { seq = w.seq + 1; ops = ops } ∷ []))
  write_batch-Lossless sn base recs ops expected w n b i p m room size h =
      let small : w.seq + 1 < 2 ^ 64 = omega (arith, room) in
      let (number, logged) = write_batch-IsLogged E sn base recs ops expected w n b i small h in
      let seq : (write_batch sn ops expected w).1.seq + 1 < 2 ^ 64 = omega (
        arith,
        room,
        IsConsecutive-last logged.first _ recs (record { seq = w.seq + 1; ops = ops })
            logged.consecutive,
      ) in
      let marks = write_batch-Marks sn ops expected w n p m small h in
      let all = recs ++ (record { seq = w.seq + 1; ops = ops } ∷ []) in
      let k = body_of (write_batch sn ops expected w).1 in
      (
        marks,
        subst (λ bs. Lossless E bs base k all) (sym marks.wal_synced)
            (IsLogged-Lossless E base k all logged seq size),
      )
