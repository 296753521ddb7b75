-- ===== src/Auth/Sqlite.antt =====
-- server/internal/auth/replay_sqlite.go: SQLiteReplayGuard. The database is a parameter: its
-- transactions, the statements that the guard executes, and what their documentation promises.
pub mod Laws
pub mod Implements
pub mod Opening
pub mod Lives
use golem_harness.Base.{
  ℕ, Str, text, is_empty, str_eq, ◌≡◌, Bool, true, false, ◌||◌, ◌&&◌, Option, none, some, ltb, leb,
  ◌<◌, ◌^◌, if◌then◌else◌,
}
use golem_harness.Errors.{Error, malformed, replay, plain}

-- What the two tables hold: the pairs of seen_frames, and device_state.
pub record Rows : Type 0 where
  pub seen : Str → Str → Bool
  pub max_sequence : Str → Option ℕ

-- The state after `INSERT INTO seen_frames`, and after the upsert of device_state.
abbrev pub insert_seen : Str → Str → Rows → Rows
insert_seen d f rows = record rows { seen = λ d' f'. str_eq d d' && str_eq f f' || rows.seen d' f' }

abbrev pub upsert_max : Str → ℕ → Rows → Rows
upsert_max d n rows = record rows {
  max_sequence = λ d'. if str_eq d d' then some n else rows.max_sequence d';
}

-- A database with the statements of CheckAndRecord; `none` is a statement that fails. `commit` and
-- `rollback` end a transaction, and a commit says whether it succeeded.
pub record ReplayDb : Type 1 where
  pub Db : Type 0
  pub Tx : Type 0
  pub begin : Db → Option Tx
  -- SELECT frame_id FROM seen_frames WHERE device_id = ? AND frame_id = ?; false is ErrNoRows
  pub select_frame : Str → Str → Tx → Option Bool
  -- SELECT max_sequence FROM device_state WHERE device_id = ?; none is ErrNoRows
  pub select_max_sequence : Str → Tx → Option (Option ℕ)
  pub insert_frame : Str → Str → Tx → Option Tx
  pub upsert_sequence : Str → ℕ → Tx → Option Tx
  pub commit : Tx → Bool × Db
  pub rollback : Tx → Db

-- The documented behaviour. A statement may fail at any time; one that does not has its effect. A
-- commit that fails and a rollback leave the rows that stood when the transaction began.
pub record IsTransactional (D : ReplayDb) : Type 0 where
  pub rows : D.Db → Rows
  pub tx_rows : D.Tx → Rows
  pub base : D.Tx → Rows
  pub begin_tx_rows : (db : D.Db) {tx : D.Tx} → D.begin db ≡ some tx → tx_rows tx ≡ rows db
  pub begin_base : (db : D.Db) {tx : D.Tx} → D.begin db ≡ some tx → base tx ≡ rows db
  pub select_frame_seen :
      (d f : Str) (tx : D.Tx) {b : Bool}
      → D.select_frame d f tx ≡ some b
      → b ≡ (tx_rows tx).seen d f
  pub select_max :
      (d : Str) (tx : D.Tx) {m : Option ℕ}
      → D.select_max_sequence d tx ≡ some m
      → m ≡ (tx_rows tx).max_sequence d
  pub insert_rows :
      (d f : Str) (tx : D.Tx) {tx' : D.Tx}
      → D.insert_frame d f tx ≡ some tx'
      → tx_rows tx' ≡ insert_seen d f (tx_rows tx)
  pub insert_base :
      (d f : Str) (tx : D.Tx) {tx' : D.Tx} → D.insert_frame d f tx ≡ some tx' → base tx' ≡ base tx
  pub upsert_rows :
      (d : Str) (n : ℕ) (tx : D.Tx) {tx' : D.Tx}
      → D.upsert_sequence d n tx ≡ some tx'
      → tx_rows tx' ≡ upsert_max d n (tx_rows tx)
  pub upsert_base :
      (d : Str) (n : ℕ) (tx : D.Tx) {tx' : D.Tx}
      → D.upsert_sequence d n tx ≡ some tx'
      → base tx' ≡ base tx
  pub commit_rows : (tx : D.Tx) → (D.commit tx).0 ≡ true → rows (D.commit tx).1 ≡ tx_rows tx
  pub commit_failed : (tx : D.Tx) → (D.commit tx).0 ≡ false → rows (D.commit tx).1 ≡ base tx
  pub rollback_rows : (tx : D.Tx) → rows (D.rollback tx) ≡ base tx

-- No row leaves 0.
abbrev pub or_zero : Option ℕ → ℕ
or_zero none = 0
or_zero (some n) = n

module _ (D : ReplayDb) where
  -- The error of a failed statement, and the deferred rollback. The text leaves out the cause.
  abbrev failed : Str → D.Tx → Option Error × D.Db
  failed what tx = (some (plain what), D.rollback tx)

  pub finish : D.Tx → Option Error × D.Db
  finish tx =
      let (done, db) = D.commit tx in
      (if done then none else some (plain (text "replay commit")), db)

  pub upsert_and_commit : Str → ℕ → D.Tx → Option Error × D.Db
  upsert_and_commit d n tx = elim (D.upsert_sequence d n tx) [
    | none ↦ failed (text "replay upsert sequence") tx
    | some tx' ↦ finish tx'
  ]

  pub write : Str → Str → ℕ → D.Tx → Option Error × D.Db
  write d f n tx = elim (D.insert_frame d f tx) [
    | none ↦ failed (text "replay insert frame") tx
    | some tx' ↦ upsert_and_commit d n tx'
  ]

  pub check_sequence : Str → Str → ℕ → D.Tx → Option Error × D.Db
  check_sequence d f n tx = elim (D.select_max_sequence d tx) [
    | none ↦ failed (text "replay lookup sequence") tx
    | some m ↦ if leb n (or_zero m) then (some replay, D.rollback tx) else write d f n tx
  ]

  pub check_frame : Str → Str → ℕ → D.Tx → Option Error × D.Db
  check_frame d f n tx = elim (D.select_frame d f tx) [
    | none ↦ failed (text "replay lookup frame") tx
    | some found ↦ if found then (some replay, D.rollback tx) else check_sequence d f n tx
  ]

  pub begun : Str → Str → ℕ → D.Db → Option Error × D.Db
  begun d f n db = elim (D.begin db) [
    | none ↦ (some (plain (text "replay begin")), db)
    | some tx ↦ check_frame d f n tx
  ]

  -- CheckAndRecord; the state `none` is a guard that is nil or not open
  unfoldable pub check_and_record : Str → Str → ℕ → Option D.Db → Option Error × Option D.Db
  unfolding begun check_frame check_sequence write upsert_and_commit finish
  check_and_record d f n state =
      if is_empty d || is_empty f
      then (some (malformed (text "device id and frame id are required")), state)
      else elim state [
        | none ↦ (some (malformed (text "replay guard is not open")), none)
        | some db ↦ let (answer, db') = begun d f n db in (answer, some db')
      ]
