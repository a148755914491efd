-- ===== src/Persist/Wal/Appended.antt =====
-- The bytes of the log after the calls of the writer of src/persist/wal.rs that succeed.
use orpheusgraph.Prelude.{
  ◌+◌, ◌%◌, ◌^◌, ◌≡◌, refl, sym, ap, ◌∙◌, Bool, true, false, Option, none, some, [], ◌++◌, max, leb,
  arith, Bool-cases, inl, inr,
}
use orpheusgraph.Persist.Bytes.{Bytes}
use orpheusgraph.Persist.Vfs.{VfsFile}
use orpheusgraph.Persist.Error.{Result, ok}
use orpheusgraph.Persist.Wal.Writer.{
  FsyncPolicy, WalWriter, guarded, fsync_now, sync_by_policy, append, flush, truncate,
}

module _ (E : Type 0) {F : Type 0} ⦃vf : VfsFile E F⦄ where
  -- The writer's file is opened to append and holds the bytes.
  pub record Holds (w : WalWriter F) (bytes : Bytes) : Type 0 where
    pub on_file : vf.contents w.file ≡ bytes
    pub append_mode : vf.appends w.file ≡ true

  guarded-Holds :
      {A : Type 0} (call : Option E × F) (w : WalWriter F)
      (go : WalWriter F → Result E A × WalWriter F) (a : A) (bytes : Bytes)
      → (guarded call w go).0 ≡ ok a
      → (call.0 ≡ none
          → (go (record w { file = call.1 })).0 ≡ ok a
          → Holds (go (record w { file = call.1 })).1 bytes)
      → Holds (guarded call w go).1 bytes
  unfolding guarded
  guarded-Holds (some e, f) w go a bytes h k = ground (arith, h)
  guarded-Holds (none, f) w go a bytes h k = k refl h

  fsync_now-Holds :
      {A : Type 0} (a b : A) (w : WalWriter F) (bytes : Bytes)
      → Holds w bytes
      → (fsync_now {E = E} a w).0 ≡ ok b
      → Holds (fsync_now {E = E} a w).1 bytes
  unfolding fsync_now
  fsync_now-Holds a b w bytes i h = guarded-Holds (vf.sync_all w.file) w _ b bytes h (λ q h1.
      record {
        on_file = vf.sync_all-contents w.file q ∙ i.on_file;
        append_mode = vf.sync_all-appends w.file ∙ i.append_mode;
      })

  sync_by_policy-Holds :
      (p : FsyncPolicy) (w : WalWriter F) (b : Bool) (bytes : Bytes)
      → Holds w bytes
      → (sync_by_policy {E = E} p w).0 ≡ ok b
      → Holds (sync_by_policy {E = E} p w).1 bytes
  unfolding sync_by_policy
  sync_by_policy-Holds FsyncPolicy.on_flush w b bytes i h = i
  sync_by_policy-Holds FsyncPolicy.every_batch w b bytes i h = fsync_now-Holds true b w bytes i h
  sync_by_policy-Holds (FsyncPolicy.every_n n) w b bytes i h =
      let w1 : WalWriter F = record w { since_fsync = (w.since_fsync + 1) % 2 ^ 32 } in
      let i1 : Holds w1 bytes = record { on_file = i.on_file; append_mode = i.append_mode } in
      elim (Bool-cases (leb (max n 1) w1.since_fsync)) [
        | inl t ↦
            let e : sync_by_policy {E = E} (FsyncPolicy.every_n n) w ≡ fsync_now true w1 =
              ground (arith, t) in
            rw e (fsync_now-Holds true b w1 bytes i1 (ap (λ o. o.0) (sym e) ∙ h))
        | inr t ↦
            let e : sync_by_policy {E = E} (FsyncPolicy.every_n n) w ≡ (ok false, w1) =
              ground (arith, t) in
            rw e i1
      ]

  -- An append that succeeds puts the frame behind the bytes that the file held.
  pub append-Holds :
      (frame : Bytes) (w : WalWriter F) (b : Bool) (bytes : Bytes)
      → Holds w bytes
      → (append {E = E} frame w).0 ≡ ok b
      → Holds (append {E = E} frame w).1 (bytes ++ frame)
  unfolding append
  append-Holds frame w b bytes i h =
      guarded-Holds (vf.write_all w.file frame) w _ b (bytes ++ frame) h (λ q h1.
        sync_by_policy-Holds w.policy _ b (bytes ++ frame)
          (record {
            on_file =
                ground (arith, vf.write_all-contents w.file frame q, i.on_file, i.append_mode);
            append_mode = vf.write_all-appends w.file frame ∙ i.append_mode;
          })
          h1)

  -- A flush that succeeds leaves the bytes.
  pub flush-Holds :
      (w : WalWriter F) (bytes : Bytes)
      → Holds w bytes
      → (flush {E = E} w).0 ≡ ok tt
      → Holds (flush {E = E} w).1 bytes
  unfolding flush
  flush-Holds w bytes i h = elim (Bool-cases w.poisoned) [
    | inl t ↦ ground (arith, h, t)
    | inr t ↦
        let e : flush {E = E} w ≡ fsync_now tt w = ground (arith, t) in
        rw e (fsync_now-Holds tt tt w bytes i (ap (λ o. o.0) (sym e) ∙ h))
  ]

  -- the calls of `truncate` behind its guard
  abbrev cut : WalWriter F → Result E Unit × WalWriter F
  cut w = guarded (vf.set_len w.file 0) w (λ w1. guarded (vf.seek w1.file 0) w1 (λ w2.
      let w3 : WalWriter F = record w2 { len = 0; since_fsync = 0 } in
      guarded (vf.sync_all w3.file) w3 (λ w4. (ok tt, w4))))

  -- A truncation that succeeds leaves an empty file.
  pub truncate-Holds :
      (w : WalWriter F)
      → vf.appends w.file ≡ true
      → (truncate {E = E} w).0 ≡ ok tt
      → Holds (truncate {E = E} w).1 []
  unfolding truncate
  truncate-Holds w a h = elim (Bool-cases w.poisoned) [
    | inl t ↦ ground (arith, h, t)
    | inr t ↦
        let f1 = (vf.set_len w.file 0).1 in
        let f2 = (vf.seek f1 0).1 in
        let w0 : WalWriter F = record w { poisoned = false } in
        let run : truncate {E = E} w ≡ cut w0 = ground (arith, t) in
        rw run (
          guarded-Holds (vf.set_len w.file 0) w0 _ tt [] (ap (λ o. o.0) (sym run) ∙ h) (λ q h1.
            guarded-Holds (vf.seek f1 0) (record w0 { file = f1 }) _ tt [] h1
              (λ r h2.
                guarded-Holds (vf.sync_all f2) (record w0 { file = f2; len = 0; since_fsync = 0 }) _
                  tt [] h2
                  (λ k h3. record {
                    on_file =
                        vf.sync_all-contents f2 k
                        ∙ (vf.seek-contents f1 0 r ∙ vf.set_len-contents w.file 0 q (omega arith));
                    append_mode =
                        vf.sync_all-appends f2
                        ∙ (vf.seek-appends f1 0 ∙ (vf.set_len-appends w.file 0 ∙ a));
                  }))))
  ]
