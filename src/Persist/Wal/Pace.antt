-- ===== src/Persist/Wal/Pace.antt =====
-- What the log writer of src/persist/wal.rs leaves unsynced under `EveryN`.
use orpheusgraph.Prelude.{
  ℕ, ◌+◌, ◌%◌, ◌^◌, ◌≡◌, refl, sym, ap, ◌∙◌, ◌<◌, Bool, true, false, List, [], ◌∷◌, ◌++◌, length,
  max, leb, arith, append_assoc, append-nil, Bool-cases, Option-cases, inl, inr,
}
use native.Mathlib.Nat.{mod-eq_of_lt}
use orpheusgraph.Persist.Bytes.{Bytes}
use orpheusgraph.Persist.Vfs.{VfsFile}
use orpheusgraph.Persist.Error.{ok}
use orpheusgraph.Persist.Wal.Writer.{
  FsyncPolicy, WalWriter, guarded, fsync_now, sync_by_policy, append,
}
use orpheusgraph.Persist.Wal.Synced.{fsync_now-IsSynced}

abbrev pub joined : List Bytes → Bytes
joined [] = []
joined (f ∷ fs) = f ++ joined fs

joined-snoc : (fs : List Bytes) (f : Bytes) → joined (fs ++ (f ∷ [])) ≡ joined fs ++ f
joined-snoc [] f = append-nil f
joined-snoc (g ∷ fs) f = ap (λ l. g ++ l) (joined-snoc fs f) ∙ sym (append_assoc g (joined fs) f)

length-pushed : (fs : List Bytes) (f : Bytes) → length (fs ++ (f ∷ [])) ≡ length fs + 1
length-pushed [] f = ground arith
length-pushed (g ∷ fs) f = ground (arith, length-pushed fs f)

module _ (E : Type 0) {F : Type 0} ⦃vf : VfsFile E F⦄ where
  -- The frames behind the bytes that were last synced, which the writer counts.
  pub record IsPending (w : WalWriter F) (frames : List Bytes) : Type 0 where
    pub behind : vf.contents w.file ≡ vf.synced w.file ++ joined frames
    pub counted : w.since_fsync ≡ length frames
    pub append_mode : vf.appends w.file ≡ true

  -- what an append that answered `b` leaves pending
  pub record IsPaced (n : ℕ) (frames : List Bytes) (frame : Bytes) (b : Bool) (w : WalWriter F)
      : Type 0 where
    pub left : List Bytes
    pub pending : IsPending w left
    pub few : length left < max n 1
    pub when_synced : b ≡ true → left ≡ []
    pub when_not : b ≡ false → left ≡ frames ++ (frame ∷ [])

  fsync_now-IsPaced :
      (n : ℕ) (frames : List Bytes) (frame : Bytes) (b : Bool) (w : WalWriter F)
      → vf.appends w.file ≡ true
      → (fsync_now {E = E} true w).0 ≡ ok b
      → IsPaced n frames frame b (fsync_now {E = E} true w).1
  unfolding fsync_now guarded
  fsync_now-IsPaced n frames frame b w a h =
      let synced = fsync_now-IsSynced E true b w h in
      elim (Option-cases (vf.sync_all w.file).0) [
        | inr (e, r) ↦ ground (arith, h, r)
        | inl r ↦ record {
          left = [];
          pending = record {
            behind = sym synced ∙ sym (append-nil _);
            counted = ground (arith, r);
            append_mode = ground (arith, r, vf.sync_all-appends w.file, a);
          };
          few = omega arith;
          when_synced = λ t. refl;
          when_not = λ t. ground (arith, h, r, t);
        }
      ]

  sync_by_policy-IsPaced :
      (w : WalWriter F) (n : ℕ) (frames : List Bytes) (frame : Bytes) (b : Bool)
      → max n 1 < 2 ^ 32
      → length frames < max n 1
      → w.since_fsync ≡ length frames
      → vf.appends w.file ≡ true
      → vf.contents w.file ≡ vf.synced w.file ++ joined (frames ++ (frame ∷ []))
      → (sync_by_policy {E = E} (FsyncPolicy.every_n n) w).0 ≡ ok b
      → IsPaced n frames frame b (sync_by_policy {E = E} (FsyncPolicy.every_n n) w).1
  unfolding sync_by_policy
  sync_by_policy-IsPaced w n frames frame b small few counted a behind h =
      let w1 : WalWriter F = record w { since_fsync = (w.since_fsync + 1) % 2 ^ 32 } in
      let m : (w.since_fsync + 1) % 2 ^ 32 ≡ w.since_fsync + 1 =
        mod-eq_of_lt (omega (arith, small, few, counted)) in
      let more = length-pushed frames frame in
      elim (Bool-cases (leb (max n 1) w1.since_fsync)) [
        | inl t ↦
            let e : sync_by_policy {E = E} (FsyncPolicy.every_n n) w ≡ fsync_now true w1 =
              ground (arith, t) in
            rw e (fsync_now-IsPaced n frames frame b w1 a (ap (λ o. o.0) (sym e) ∙ h))
        | inr t ↦
            let e : sync_by_policy {E = E} (FsyncPolicy.every_n n) w ≡ (ok false, w1) =
              ground (arith, t) in
            let answered : b ≡ false = ground (arith, sym (ap (λ o. o.0) e) ∙ h) in
            rw e (record {
              left = frames ++ (frame ∷ []);
              pending = record {
                behind = behind;
                counted = omega (arith, m, counted, more);
                append_mode = a;
              };
              few = ground (arith, t, m, counted, more);
              when_synced = λ q. ground (arith, q, answered);
              when_not = λ q. refl;
            })
      ]

  -- Where an `EveryN` writer has left fewer frames behind the bytes that were last synced than its
  -- policy allows, and counts them, it still has and does after an append that answers without an
  -- error: none are left when the answer is that the log was synced, and else the new frame is the
  -- last of them.
  pub append-IsPaced :
      (frame : Bytes) (w : WalWriter F) (n : ℕ) (frames : List Bytes) (b : Bool)
      → w.policy ≡ FsyncPolicy.every_n n
      → max n 1 < 2 ^ 32
      → IsPending w frames
      → length frames < max n 1
      → (append {E = E} frame w).0 ≡ ok b
      → IsPaced n frames frame b (append {E = E} frame w).1
  unfolding append guarded
  append-IsPaced frame w n frames b e small i few h =
      elim (Option-cases (vf.write_all w.file frame).0) [
        | inr (x, r) ↦ ground (arith, h, r)
        | inl r ↦
            let f = (vf.write_all w.file frame).1 in
            let w2 : WalWriter F = record w { file = f; len = (w.len + length frame) % 2 ^ 64 } in
            let q : append {E = E} frame w ≡ sync_by_policy (FsyncPolicy.every_n n) w2 =
              ground (arith, e, r) in
            let written : vf.contents f ≡ vf.contents w.file ++ frame =
              ground (arith, vf.write_all-contents w.file frame r, i.append_mode) in
            let behind : vf.contents f ≡ vf.synced f ++ joined (frames ++ (frame ∷ [])) =
              written
              ∙ (ap (λ l. l ++ frame) i.behind
                  ∙ (append_assoc (vf.synced w.file) (joined frames) frame
                      ∙ (ap (λ l. vf.synced w.file ++ l) (sym (joined-snoc frames frame))
                          ∙ ap (λ l. l ++ joined (frames ++ (frame ∷ [])))
                              (sym (vf.write_all-synced w.file frame r))))) in
            rw q (
              sync_by_policy-IsPaced w2 n frames frame b small few i.counted
                (vf.write_all-appends w.file frame ∙ i.append_mode) behind
                (ap (λ o. o.0) (sym q) ∙ h))
      ]
