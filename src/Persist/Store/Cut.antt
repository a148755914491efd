-- ===== src/Persist/Store/Cut.antt =====
-- Steps 4 to 6b of `open_with_vfs` in src/persist/mod.rs: what is left of the log.
use orpheusgraph.Prelude.{
  string_eq, subst, ℕ, ◌≡◌, ◌≤◌, refl, sym, ap, ◌∙◌, Bool, true, false, [], ◌∷◌, ◌++◌, String, take,
  length, arith, Bool-cases, Option-cases, inl, inr, ltb, if◌then◌else◌, length-append, take-length,
  append-nil,
}
use orpheusgraph.IndexMap.{IndexMap}
use orpheusgraph.Types.{NodeData}
use orpheusgraph.Persist.Bytes.{Bytes}
use orpheusgraph.Persist.Crc.{Crc32}
use orpheusgraph.Persist.Error.{ok}
use orpheusgraph.Persist.Program.{pure, io_call, io_call-ok, and_then-Went}
use orpheusgraph.Persist.Vfs.{VfsFile, Vfs}
use orpheusgraph.Persist.Manifest.{Manifest, Json, mint_epoch, write_manifest_atomic}
use orpheusgraph.Persist.Commit.File.{CommitFile}
use orpheusgraph.Persist.Wal.Frame.{Postcard, ScanResult}
use orpheusgraph.Persist.Store.Create.{Host}
use orpheusgraph.Persist.Store.Recover.{Replay}
use orpheusgraph.Persist.Store.Open.{
  Recovered, file_len, cut_off_tail, cut_log, restamp, settle, forks, reopened_manifest,
}

no_tail : (tail : Bytes) → length tail ≤ 0 → tail ≡ []
no_tail [] h = refl
no_tail (b ∷ bs) h = ground (arith, h)

module _ (E : Type 0) {F : Type 0} ⦃vf : VfsFile E F⦄ where
  -- the bytes of a file opened to append
  pub record Keeps (f : F) (bytes : Bytes) : Type 0 where
    pub contents : vf.contents f ≡ bytes
    pub append_mode : vf.appends f ≡ true

  file_len-ok :
      (f : F) (k : ℕ) (bytes : Bytes)
      → Keeps f bytes
      → (file_len {E = E} f).0 ≡ ok k
      → (k ≡ length bytes) × Keeps (file_len {E = E} f).1 bytes
  file_len-ok f k bytes i h = elim (Option-cases (vf.len f).0) [
    | inr (e, r) ↦ ground (arith, h, r)
    | inl r ↦
        let (n, same) = vf.len-contents f r in
        let e : (file_len {E = E} f).1 ≡ (vf.len f).1.1 = ground (arith, r) in
        let v : (vf.len f).1.0 ≡ k = ground (arith, h, r) in
        (
          sym v ∙ (n ∙ ap length i.contents),
          rw e (record {
            contents = same ∙ i.contents;
            append_mode = vf.len-appends f ∙ i.append_mode;
          }),
        )
  ]

module _ {E F D : Type 0} ⦃vf : VfsFile E F⦄ where
  cut_off_tail-Keeps :
      (vfs : Vfs E F D) (dir : String) (f : F) (d : D) (head tail : Bytes) (b : Bool)
      → Keeps E f (head ++ tail)
      → (cut_off_tail vfs dir (length head) (f, d)).0 ≡ ok b
      → Keeps E (cut_off_tail vfs dir (length head) (f, d)).1.0 head
  unfolding cut_off_tail
  cut_off_tail-Keeps vfs dir f d head tail b i h =
      let n = length head in
      let f1 = (io_call {E = E} (λ g. vf.set_len g n) f).1 in
      let cut = and_then-Went (io_call (λ g. vf.set_len g n) f).0 (f1, d) _ b h in
      let f2 = (io_call {E = E} vf.sync_all f1).1 in
      let synced = and_then-Went (io_call vf.sync_all f1).0 (f2, d) _ b cut.rest in
      let d1 = (io_call {E = E} (vfs.fsync_dir dir) d).1 in
      let listed = and_then-Went (io_call (vfs.fsync_dir dir) d).0 (f2, d1) _ b synced.rest in
      let (shortened, e1) =
        io_call-ok (λ g. vf.set_len g n) f f1 cut.value (ap (λ r. (r, f1)) cut.answered) in
      let (flushed, e2) =
        io_call-ok vf.sync_all f1 f2 synced.value (ap (λ r. (r, f2)) synced.answered) in
      let size : n ≤ length (vf.contents f) =
        omega (arith, ap length i.contents, length-append head tail) in
      let done : Keeps E f2 head = record {
        contents =
            ap vf.contents (sym e2)
            ∙ (vf.sync_all-contents f1 flushed
                ∙ (ap vf.contents (sym e1)
                    ∙ (vf.set_len-contents f n shortened size
                        ∙ (ap (take n) i.contents ∙ take-length head tail))));
        append_mode =
            ap vf.appends (sym e2)
            ∙ (vf.sync_all-appends f1
                ∙ (ap vf.appends (sym e1) ∙ (vf.set_len-appends f n ∙ i.append_mode)));
      } in
      subst (λ g. Keeps E g head)
        (sym (ap (λ o. o.1.0) (cut.whole ∙ (synced.whole ∙ listed.whole)))) done

  cut_log-Keeps :
      (vfs : Vfs E F D) (dir : String) (f : F) (d : D) (head tail : Bytes) (b : Bool)
      → Keeps E f (head ++ tail)
      → (cut_log vfs dir (length head) (f, d)).0 ≡ ok b
      → Keeps E (cut_log vfs dir (length head) (f, d)).1.0 head
  unfolding cut_log
  cut_log-Keeps vfs dir f d head tail b i h =
      let n = length head in
      let f1 = (file_len {E = E} f).1 in
      let known = and_then-Went (file_len f).0 (f1, d) _ b h in
      let (size, i1) = file_len-ok E f known.value (head ++ tail) i known.answered in
      let total = length-append head tail in
      elim (Bool-cases (ltb n known.value)) [
        | inl t ↦
            let e : cut_log vfs dir n (f, d) ≡ cut_off_tail vfs dir n (f1, d) =
              known.whole ∙ ground (arith, t) in
            subst (λ o. Keeps E o.1.0 head) (sym e)
              (cut_off_tail-Keeps vfs dir f1 d head tail b i1 (ap (λ o. o.0) (sym e) ∙ h))
        | inr t ↦
            let e : cut_log vfs dir n (f, d) ≡ (ok false, (f1, d)) =
              known.whole ∙ ground (arith, t) in
            let nothing_left = no_tail tail (ground (arith, t, size, total)) in
            let same : head ++ tail ≡ head = rw nothing_left (append-nil head) in
            subst (λ o. Keeps E o.1.0 head) (sym e) (subst (Keeps E f1) same i1)
      ]

module _ (E : Type 0) {F S : Type 0} ⦃crc : Crc32⦄ ⦃vf : VfsFile E F⦄ where
  restamp_beside : (epoch hw : ℕ) (s : CommitFile F × S) → (restamp {E = E} epoch hw s).1.1 ≡ s.1
  unfolding restamp
  restamp_beside epoch hw s = ground arith

module _ (E : Type 0) {F : Type 0} ⦃im : IndexMap String NodeData⦄ ⦃vf : VfsFile E F⦄ where
  -- the log after the steps from 4 on, and what they pass on
  pub record Settled (head : Bytes) (hw : ℕ) (replay : Replay) (r : Recovered) (f : F)
      : Type 0 where
    pub keeps : Keeps E f head
    pub same_replay : r.replay ≡ replay
    pub same_hw : r.commit_hw ≡ hw

module _ {E F D L G V : Type 0} ⦃im : IndexMap String NodeData⦄ ⦃crc : Crc32⦄ ⦃pc : Postcard⦄
    ⦃js : Json⦄ ⦃vf : VfsFile E F⦄ where
  pub settle-Settled :
      (host : Host E F D L G V) (dir : String) (m : Manifest) (scan : ScanResult) (hw : ℕ)
      (replay : Replay) (c : CommitFile F) (f : F) (d : D) (head tail : Bytes) (r : Recovered)
      → Keeps E f (head ++ tail)
      → replay.committed_end ≡ length head
      → (settle host dir m scan hw replay (c, (f, d))).0 ≡ ok r
      → Settled E head hw replay r (settle host dir m scan hw replay (c, (f, d))).1.1.0
  unfolding settle
  settle-Settled host dir m scan hw replay c f d head tail r i e h =
      let s1 = (cut_log host.vfs dir replay.committed_end (f, d)).1 in
      let cut = and_then-Went (cut_log host.vfs dir replay.committed_end (f, d)).0 (c, s1) _ r h in
      let cut_run : (cut_log host.vfs dir (length head) (f, d)).0 ≡ ok cut.value =
        ap (λ n. (cut_log host.vfs dir n (f, d)).0) (sym e) ∙ cut.answered in
      let keeps : Keeps E s1.0 head =
        subst (λ n. Keeps E (cut_log host.vfs dir n (f, d)).1.0 head) (sym e)
          (cut_log-Keeps host.vfs dir f d head tail cut.value i cut_run) in
      let minted =
        (if forks cut.value m.clean_shutdown then mint_epoch host.entropy else pure m.epoch) s1.1 in
      let epoch = and_then-Went minted.0 (c, (s1.0, minted.1)) _ r cut.rest in
      let stamp = restamp {E = E} epoch.value hw (c, (s1.0, minted.1)) in
      let stamped_it = and_then-Went stamp.0 stamp.1 _ r epoch.rest in
      let w = write_manifest_atomic host.vfs dir (reopened_manifest m epoch.value hw) stamp.1.1.1 in
      let wrote = and_then-Went w.0 (stamp.1.0, (stamp.1.1.0, w.1)) _ r stamped_it.rest in
      let end : (settle host dir m scan hw replay (c, (f, d))).1.1.0 ≡ stamp.1.1.0 =
        ap (λ o. o.1.1.0) (cut.whole ∙ (epoch.whole ∙ (stamped_it.whole ∙ wrote.whole))) in
      let s2 : CommitFile F × (F × D) = (c, (s1.0, minted.1)) in
      let unmoved = restamp_beside E epoch.value hw s2 in
      record {
        keeps = subst (λ g. Keeps E g head) (sym (end ∙ ap (λ t. t.0) unmoved)) keeps;
        same_replay = ground (arith, wrote.rest);
        same_hw = ground (arith, wrote.rest);
      }
