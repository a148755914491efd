-- ===== src/Persist/Store/Crash.antt =====
-- What a crash leaves of the store of src/persist/mod.rs: the bytes of the log and of the sidecar, as a
-- process that dies leaves them or, where they were synced, a machine, and what a recovery makes of them.
use orpheusgraph.Prelude.{
  string_eq, ℕ, ◌+◌, ◌^◌, ◌≡◌, ◌<◌, ◌≤◌, refl, sym, ap, subst, ◌∙◌, String, some, List, [], ◌∷◌,
  length, arith,
}
use orpheusgraph.IndexMap.{IndexMap}
use orpheusgraph.Types.{NodeData}
use orpheusgraph.Accessor.{GraphAccessor}
use orpheusgraph.Delta.Defs
use orpheusgraph.Persist.Crc.{Crc32}
use orpheusgraph.Persist.Error.{ok}
use orpheusgraph.Persist.Program.{and_then-Went}
use orpheusgraph.Persist.Vfs.{VfsFile}
use orpheusgraph.Persist.Commit.Slot.{CommitRecord}
use orpheusgraph.Persist.Commit.Select.{select}
use orpheusgraph.Persist.Commit.File.{advance}
use orpheusgraph.Persist.Commit.PingPong.{IsPositioned, Fits, advance-IsPositioned}
use orpheusgraph.Persist.Wal.Frame.{WalRecord, Postcard, ScanResult, scan_wal_bytes}
use orpheusgraph.Persist.Wal.Scan.{whole, scan_wal_bytes-log}
use orpheusgraph.Persist.Wal.Writer
use orpheusgraph.Persist.Wal.Appended.{flush-Holds}
use orpheusgraph.Persist.Wal.Synced.{IsSynced, flush-IsSynced}
use orpheusgraph.Persist.Commit.Synced.{advance-synced}
use orpheusgraph.Persist.Bytes.{Bytes}
use orpheusgraph.Persist.Store.State.{Writer, advance_commit}
use orpheusgraph.Persist.Store.Recover.{Replay, recover}
use orpheusgraph.Persist.Store.Recover.Sound.{
  live, beyond, replay_all, recover-IsReplayed, IsConsecutive,
}
use orpheusgraph.Persist.Store.Recover.Complete.{recover-IsRecovered}
use orpheusgraph.Persist.Store.Batch.Logged.{IsLogged, Body, body_of, marked-ok}
use orpheusgraph.Persist.Store.Calls.{flush_writer}

beyond-zero :
    (first last : ℕ) (recs : List WalRecord)
    → IsConsecutive first recs last
    → (first ≤ last) × (beyond last recs ≡ 0)
beyond-zero first last [] c = (omega (arith, c), refl)
beyond-zero first last (rec ∷ recs) (e, c) =
    let (up, rest) = beyond-zero rec.seq last recs c in
    (omega (arith, e, up), ground (arith, up, rest))

module _ (E : Type 0) {F : Type 0} ⦃im : IndexMap String NodeData⦄ ⦃crc : Crc32⦄ ⦃pc : Postcard⦄
    ⦃vf : VfsFile E F⦄ where
  -- what a recovery with the marker `hw` makes of the bytes of a log
  pub record Reopens (bytes : Bytes) (base : GraphAccessor) (k : Body F) (recs : List WalRecord)
      (hw : ℕ) : Type 0 where
    pub scan : ScanResult
    pub found : Replay
    pub scanned : scan_wal_bytes {E = E} bytes ≡ some (ok scan)
    pub run : recover {E = E} base k.snapshot_seq hw scan ≡ ok found
    pub last : found.last_applied ≡ hw
    pub delta : found.delta ≡ replay_all base (live k.snapshot_seq hw recs) Defs.new
    pub counted : found.uncommitted_tail_frames ≡ beyond hw recs

  -- a recovery that gives back the whole delta
  pub record Lossless (bytes : Bytes) (base : GraphAccessor) (k : Body F) (recs : List WalRecord)
      : Type 0 where
    pub reopened : Reopens bytes base k recs k.seq
    pub delta : reopened.found.delta ≡ k.delta
    pub none_lost : reopened.found.uncommitted_tail_frames ≡ 0

  -- Wherever between the snapshot's number and the writer's the marker stands, the bytes of the log
  -- are recovered without an error up to the marker: the delta is the replay of the records that it
  -- covers and the snapshot does not hold, and the records after it are counted.
  pub IsLogged-Reopens :
      (base : GraphAccessor) (k : Body F) (recs : List WalRecord) (hw : ℕ)
      → IsLogged E base k recs
      → k.snapshot_seq ≤ hw
      → hw ≤ k.seq
      → k.seq + 1 < 2 ^ 64
      → length (vf.contents k.wal.file) < 2 ^ 64
      → Reopens (vf.contents k.wal.file) base k recs hw
  IsLogged-Reopens base k recs hw i low late small room =
      let size : length i.log < 2 ^ 64 = subst (λ bs. length bs < 2 ^ 64) i.holds.on_file room in
      let bound : hw + 1 < 2 ^ 64 = omega (arith, late, small) in
      let r =
        recover-IsRecovered E base k.snapshot_seq hw i.first k.seq recs i.log i.early low late bound
          i.consecutive i.logged size in
      let sound =
        recover-IsReplayed E base k.snapshot_seq hw (whole recs (length i.log)) r.found low bound
          r.run in
      record {
        scan = whole recs (length i.log);
        found = r.found;
        scanned = ap scan_wal_bytes i.holds.on_file ∙ scan_wal_bytes-log recs i.log i.logged;
        run = r.run;
        last = r.last;
        delta = sound.0;
        counted = sound.1.1.1.0;
      }

  pub IsLogged-Lossless :
      (base : GraphAccessor) (k : Body F) (recs : List WalRecord)
      → IsLogged E base k recs
      → k.seq + 1 < 2 ^ 64
      → length (vf.contents k.wal.file) < 2 ^ 64
      → Lossless (vf.contents k.wal.file) base k recs
  IsLogged-Lossless base k recs i small room =
      let r = IsLogged-Reopens base k recs k.seq i i.folded (omega arith) small room in
      record {
        reopened = r;
        delta = r.delta ∙ sym i.replayed;
        none_lost = r.counted ∙ (beyond-zero i.first k.seq recs i.consecutive).1;
      }

module _ (E : Type 0) {F G V : Type 0} ⦃im : IndexMap String NodeData⦄ ⦃crc : Crc32⦄ ⦃pc : Postcard⦄
    ⦃vf : VfsFile E F⦄ where
  -- the sidecar of the writer holds a record, and `n` and the next `gen` fit its words
  pub record IsMarked (w : Writer F G V) (n : ℕ) : Type 0 where
    pub marker : CommitRecord
    pub positioned : IsPositioned E w.commit marker
    pub fits : Fits (record { epoch = w.epoch; committed_seq = n; gen = w.commit.next_gen })
    pub room : w.commit.next_gen + 1 < 2 ^ 64

  -- Nothing of the log and the sidecar is only in memory, the sidecar on the disk names the number
  -- `w.seq`, and the recovery of the log on the disk up to it gives the delta `w.delta` again, with
  -- nothing left out.
  pub record Survives (base : GraphAccessor) (w w1 : Writer F G V) (recs : List WalRecord)
      : Type 0 where
    pub durable : w1.durable_seq ≡ w.seq
    pub chosen : ℕ
    pub marker :
        select (vf.synced w1.commit.file)
        ≡ some (record { epoch = w.epoch; committed_seq = w.seq; gen = w.commit.next_gen }, chosen)
    pub kept : (w1.seq ≡ w.seq) × (w1.delta ≡ w.delta)
    pub wal_synced : IsSynced E w1.wal
    pub commit_synced : vf.synced w1.commit.file ≡ vf.contents w1.commit.file
    pub lossless : Lossless E (vf.synced w1.wal.file) base (body_of w1) recs

  pub advance_commit-marker :
      (w : Writer F G V) (n : ℕ)
      → IsMarked w n
      → (advance_commit {E = E} n w).0 ≡ ok tt
      → (IsPositioned E
          (advance_commit {E = E} n w).1.commit
          (record { epoch = w.epoch; committed_seq = n; gen = w.commit.next_gen }))
        × (((advance_commit {E = E} n w).1.durable_seq ≡ n)
            × ((body_of (advance_commit {E = E} n w).1 ≡ body_of w)
                × (vf.synced (advance_commit {E = E} n w).1.commit.file
                    ≡ vf.contents (advance_commit {E = E} n w).1.commit.file)))
  unfolding advance_commit
  advance_commit-marker w n m h =
      let new : CommitRecord = record {
        epoch = w.epoch;
        committed_seq = n;
        gen = w.commit.next_gen;
      } in
      let out = advance {E = E} w.commit w.epoch n in
      let (fine, e) = marked-ok n w out h in
      let p = advance-IsPositioned w.commit m.marker w.epoch n m.positioned m.fits m.room fine in
      (
        subst (λ o. IsPositioned E o.1.commit new) (sym e) p,
        (
          ap (λ o. o.1.durable_seq) e,
          (
            ap (λ o. body_of o.1) e,
            subst (λ o. vf.synced o.1.commit.file ≡ vf.contents o.1.commit.file) (sym e)
                (advance-synced E w.commit w.epoch n fine),
          ),
        ),
      )

  -- A flush that reports success makes everything that was applied survive a crash of the machine: the
  -- log and the sidecar are synced, the sidecar on the disk names the writer's number, and the bytes of
  -- the log on the disk are recovered up to it to the same delta, with no record left out.
  pub flush_writer-Survives :
      (base : GraphAccessor) (w : Writer F G V) (recs : List WalRecord)
      → IsLogged E base (body_of w) recs
      → IsMarked w w.seq
      → w.seq + 1 < 2 ^ 64
      → length (vf.contents w.wal.file) < 2 ^ 64
      → (flush_writer {E = E} w).0 ≡ ok tt
      → Survives base w (flush_writer {E = E} w).1 recs
  unfolding flush_writer
  flush_writer-Survives base w recs i m small room h =
      let w1 : Writer F G V = record w { wal = (Writer.flush {E = E} w.wal).1 } in
      let flushed = and_then-Went (Writer.flush {E = E} w.wal).0 w1 _ tt h in
      let held = flush-Holds E w.wal i.log i.holds flushed.answered in
      let i1 : IsLogged E base (body_of w1) recs = record {
        first = i.first;
        log = i.log;
        logged = i.logged;
        holds = held;
        early = i.early;
        folded = i.folded;
        consecutive = i.consecutive;
        replayed = i.replayed;
      } in
      let m1 : IsMarked w1 w.seq = record {
        marker = m.marker;
        positioned = m.positioned;
        fits = m.fits;
        room = m.room;
      } in
      let (p, (durable, (body, synced))) = advance_commit-marker w1 w.seq m1 flushed.rest in
      let on_disk = flush-IsSynced E w.wal flushed.answered in
      let size : length (vf.contents w1.wal.file) < 2 ^ 64 =
        subst (λ bs. length bs < 2 ^ 64) (i.holds.on_file ∙ sym held.on_file) room in
      let r : Lossless E (vf.contents w1.wal.file) base (body_of w1) recs =
        IsLogged-Lossless E base (body_of w1) recs i1 small size in
      let done : Survives base w (advance_commit {E = E} w1.seq w1).1 recs = record {
        durable = durable;
        chosen = p.chosen;
        marker = ap select synced ∙ p.holds;
        kept = (ap (λ b. b.seq) body, ap (λ b. b.delta) body);
        wal_synced = subst (λ b. IsSynced E b.wal) (sym body) on_disk;
        commit_synced = synced;
        lossless =
            subst (λ b. Lossless E (vf.synced b.wal.file) base b recs) (sym body)
              (subst (λ bs. Lossless E bs base (body_of w1) recs) (sym on_disk) r);
      } in
      subst (λ o. Survives base w o.1 recs) (sym flushed.whole) done
