-- ===== src/Auth/Sqlite/Implements.antt =====
-- SQLiteReplayGuard implements the log of accepted frames, and answers like MemoryReplayGuard.
use golem_harness.Base.{
  ℕ, ◌<◌, ◌^◌, Str, is_empty, ◌≡◌, refl, Bool, true, ◌||◌, ◌&&◌, not, Option, none, some, List, ◌∷◌,
  arith, str_eq_iff, ltb, Bool-cases, inl, inr, if◌then◌else◌,
}
use golem_harness.Errors.{Error, replay}
use golem_harness.Auth.Log.{
  Frame, Log, frame_seen, max_sequence, accepted_count, is_fresh, logged, NoReplay,
}
use golem_harness.Auth.Guard.{ReplayGuard, IsGuard, run, run-NoReplay}
use golem_harness.Auth.Memory.{MemoryReplayGuard, limit_of}
use golem_harness.Auth.Memory
use golem_harness.Auth.Memory.Laws.{check_and_record-answer, answer}
use golem_harness.Auth.Memory.Laws
use golem_harness.Auth.Sqlite.{
  Rows, insert_seen, upsert_max, ReplayDb, IsTransactional, or_zero, begun, check_and_record,
  check_frame, check_sequence, write, upsert_and_commit, finish,
}
use golem_harness.Auth.Sqlite.Laws.{rows_after, begun-rows, begun-none}

-- The rows are those of the log.
pub record Holds (rows : Rows) (log : Log) : Type 0 where
  pub seen_of : (d f : Str) → rows.seen d f ≡ frame_seen log d f
  pub max_of : (d : Str) → or_zero (rows.max_sequence d) ≡ max_sequence log d

Holds-accepted :
    (r : Frame) (rows : Rows) (log : Log)
    → Holds rows log
    → is_fresh log r ≡ true
    → Holds (upsert_max r.device r.sequence (insert_seen r.device r.id rows)) (r ∷ log)
unfolding frame_seen max_sequence
Holds-accepted r rows log h fresh = record {
  seen_of = λ d f. ground (arith, h.seen_of d f);
  max_of = λ d. ground (arith, h.max_of d, str_eq_iff r.device d);
}

Holds-rows_after :
    (r : Frame) (rows : Rows) (log : Log) (reply : Option Error)
    → Holds rows log
    → (reply ≡ none → is_fresh log r ≡ true)
    → Holds (rows_after r.device r.id r.sequence rows reply) (logged log r reply)
Holds-rows_after r rows log none h fresh = Holds-accepted r rows log h (fresh refl)
Holds-rows_after r rows log (some refusal) h fresh = h

module _ (D : ReplayDb) (T : IsTransactional D) where
  -- A guard that is not open stands for every log: it accepts nothing.
  abbrev pub Represents : Option D.Db → Log → Type 0
  Represents none log = Unit
  Represents (some db) log = Holds (T.rows db) log

  abbrev call : Frame → Option D.Db → Option Error × Option D.Db
  call r = check_and_record D r.device r.id r.sequence

  pub call-fresh :
      (r : Frame) (state : Option D.Db) (log : Log)
      → Represents state log
      → (call r state).0 ≡ none
      → is_fresh log r ≡ true
  unfolding check_and_record
  call-fresh r none log rep h = ground arith
  call-fresh r (some db) log rep h = ground (
    arith,
    begun-none D T r.device r.id r.sequence db,
    rep.seen_of r.device r.id,
    rep.max_of r.device,
  )

  pub call-Represents :
      (r : Frame) (state : Option D.Db) (log : Log)
      → Represents state log
      → Represents (call r state).1 (logged log r (call r state).0)
  unfolding check_and_record
  call-Represents r none log rep = elim (Bool-cases (is_empty r.device || is_empty r.id)) [
    | inl e ↦ rw (e, check_and_record) rep
    | inr e ↦ rw (e, check_and_record) rep
  ]
  call-Represents r (some db) log rep = elim (Bool-cases (is_empty r.device || is_empty r.id)) [
    | inl e ↦ rw (e, check_and_record) rep
    | inr e ↦
        rw (e, check_and_record, begun-rows)
          (Holds-rows_after r (T.rows db) log _ rep
            λ accepted. call-fresh r (some db) log rep (rw (e, check_and_record) accepted))
  ]

  -- The guard as a value of the interface, which keeps its promise.
  abbrev pub sqlite_guard : ReplayGuard
  sqlite_guard = record { State = Option D.Db; check_and_record = check_and_record D }

  unfoldable pub sqlite_guard-IsGuard : IsGuard sqlite_guard
  sqlite_guard-IsGuard = record {
    Represents = Represents;
    kept = call-Represents;
    fresh = λ r state log rep h. call-fresh r state log rep h;
  }

  -- Over any run of calls on a transactional database that holds a log without replays, statements
  -- failing as they may, no frame id is accepted twice from a device and the sequences accepted
  -- from it strictly increase, those from before the run included.
  pub sqlite_guard-NoReplay :
      (rs : List Frame) (db : D.Db) (log : Log)
      → Holds (T.rows db) log
      → NoReplay log
      → NoReplay (run sqlite_guard rs (some db) log).0
  unfolding sqlite_guard-IsGuard
  sqlite_guard-NoReplay rs db log h =
      run-NoReplay sqlite_guard sqlite_guard-IsGuard rs (some db) log h

  -- A call of the SQLite guard that returns an error leaves every row as it was, whichever
  -- statement failed; one that returns none has written the frame's row and the device's sequence,
  -- and nothing else.
  pub call_atomic :
      (r : Frame) (db : D.Db) {reply : Option Error} {db' : D.Db}
      → call r (some db) ≡ (reply, some db')
      → T.rows db' ≡ rows_after r.device r.id r.sequence (T.rows db) reply
  unfolding check_and_record
  call_atomic r db h = ground (arith, begun-rows D T r.device r.id r.sequence db)

  -- No statement fails; a sequence is stored as a signed 64-bit integer.
  pub record IsReliable : Type 0 where
    pub begins : (db : D.Db) → (tx : D.Tx) × (D.begin db ≡ some tx)
    pub finds_frame : (d f : Str) (tx : D.Tx) → (b : Bool) × (D.select_frame d f tx ≡ some b)
    pub finds_sequence :
        (d : Str) (tx : D.Tx) → (m : Option ℕ) × (D.select_max_sequence d tx ≡ some m)
    pub inserts : (d f : Str) (tx : D.Tx) → (tx' : D.Tx) × (D.insert_frame d f tx ≡ some tx')
    pub upserts :
        (d : Str) (n : ℕ) (tx : D.Tx)
        → n < 2 ^ 63
        → (tx' : D.Tx) × (D.upsert_sequence d n tx ≡ some tx')
    pub commits : (tx : D.Tx) → (D.commit tx).0 ≡ true

  module _ (R : IsReliable) where
    write-none : (d f : Str) (n : ℕ) (tx : D.Tx) → n < 2 ^ 63 → (write D d f n tx).0 ≡ none
    unfolding write upsert_and_commit finish
    write-none d f n tx small =
        let (tx', e) = R.inserts d f tx in
        let (tx'', e') = R.upserts d n tx' small in ground (arith, e, e', R.commits tx'')

    check_frame-answer :
        (d f : Str) (n : ℕ) (tx : D.Tx)
        → n < 2 ^ 63
        → (check_frame D d f n tx).0 ≡ (
            if not ((T.tx_rows tx).seen d f) && ltb (or_zero ((T.tx_rows tx).max_sequence d)) n
            then none
            else some replay)
    unfolding check_frame check_sequence
    check_frame-answer d f n tx small =
        let (b, e) = R.finds_frame d f tx in
        let (m, e') = R.finds_sequence d tx in
        ground (
          arith,
          e,
          e',
          T.select_frame_seen d f tx e,
          T.select_max d tx e',
          write-none d f n tx small,
        )

    begun-answer :
        (r : Frame) (db : D.Db) (log : Log)
        → Holds (T.rows db) log
        → r.sequence < 2 ^ 63
        → (begun D r.device r.id r.sequence db).0 ≡ (if is_fresh log r then none else some replay)
    unfolding begun
    begun-answer r db log h small =
        let (tx, e) = R.begins db in
        ground (
          arith,
          e,
          check_frame-answer r.device r.id r.sequence tx small,
          T.begin_tx_rows db e,
          h.seen_of r.device r.id,
          h.max_of r.device,
        )

    -- Where no statement fails and the sequence is below 2^63, the SQLite guard answers as the
    -- memory guard does on the same log of accepted frames, if that guard has room.
    pub call-eq-memory :
        (r : Frame) (db : D.Db) (g : MemoryReplayGuard) (log : Log)
        → Holds (T.rows db) log
        → Laws.Represents g log
        → r.sequence < 2 ^ 63
        → accepted_count log r.device < limit_of g
        → (call r (some db)).0 ≡ (Memory.check_and_record r.device r.id r.sequence g).0
    unfolding check_and_record answer
    call-eq-memory r db g log h rep small room =
        ground (arith, begun-answer r db log h small, check_and_record-answer r g log rep)
