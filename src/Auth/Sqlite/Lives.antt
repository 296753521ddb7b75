-- ===== src/Auth/Sqlite/Lives.antt =====
-- server/internal/auth/replay_sqlite.go: SQLiteReplayGuard over the lives of the process that opens
-- it. A life opens the guard, takes a run of frames, and ends with Close or without.
use mathlib.Core.Path.{subst}
use golem_harness.Base.{
  Str, text, is_empty, ◌≡◌, refl, sym, ap, ◌∙◌, ◌||◌, ◌⊎◌, Bool, true, false, Option, none, some,
  List, [], ◌∷◌, Bool-cases, Option-cases, inl, inr,
}
use golem_harness.Errors.{Error}
use golem_harness.Auth.Log.{Frame, Log, NoReplay}
use golem_harness.Auth.Guard.{run, run-NoReplay, run-Represents}
use golem_harness.Auth.Sqlite.{Rows, ReplayDb, IsTransactional, check_and_record}
use golem_harness.Auth.Sqlite.Implements.{Holds, Represents, sqlite_guard, sqlite_guard-IsGuard}
use golem_harness.Auth.Sqlite.Opening.{
  Statement, journal_wal, busy_timeout, create_tables, ReplayFile, IsDurable, Opened, guard,
  refused, new_sqlite_replay_guard, exec_then,
}

-- The frames of a life, and whether it ends with Close.
pub record Life : Type 0 where
  pub frames : List Frame
  pub is_closed : Bool

module _ (D : ReplayDb) (T : IsTransactional D) (F : ReplayFile D) where
  -- What a guard leaves on the disk; `before` is the disk of a guard that was not opened.
  leave : Str → Bool → F.Disk → Option D.Db → F.Disk
  leave path is_closed before none = before
  leave path true before (some db) = (F.close_db path db).1
  leave path false before (some db) = F.lose path db

  -- One life; what is accepted is put in front of the log.
  unfoldable pub live : Str → Life → Log → F.Disk → Log × F.Disk
  unfolding leave
  live path l log disk = elim (new_sqlite_replay_guard D F path disk) [
    | refused failure disk' ↦ (log, disk')
    | guard db ↦
        let (log', state) = run (sqlite_guard D T) l.frames (some db) log in
        (log', leave path l.is_closed disk state)
  ]

  unfoldable pub live_all : Str → List Life → Log → F.Disk → Log × F.Disk
  live_all path [] log disk = (log, disk)
  live_all path (l ∷ ls) log disk =
      let (log', disk') = live path l log disk in live_all path ls log' disk'

pub Opened-cases :
    (D : ReplayDb) (F : ReplayFile D) (o : Opened D F)
    → ((failure : Error) × (disk : F.Disk) × (o ≡ refused failure disk))
      ⊎ ((db : D.Db) × (o ≡ guard db))
Opened-cases D F (guard db) = inr (db, refl)
Opened-cases D F (refused failure disk) = inl (failure, disk, refl)

-- A guard that is open stays open.
abbrev IsOpen : (D : ReplayDb) → Option D.Db → Type 0
IsOpen D none = ⊥
IsOpen D (some db) = Unit

module _ (D : ReplayDb) (T : IsTransactional D) where
  call-IsOpen :
      (r : Frame) (state : Option D.Db)
      → IsOpen D state
      → IsOpen D (check_and_record D r.device r.id r.sequence state).1
  unfolding check_and_record
  call-IsOpen r none o = elim o [ ]
  call-IsOpen r (some db) o = elim (Bool-cases (is_empty r.device || is_empty r.id)) [
    | inl e ↦ rw (e, check_and_record) tt
    | inr e ↦ rw (e, check_and_record) tt
  ]

  run-IsOpen :
      (rs : List Frame) (state : Option D.Db) (log : Log)
      → IsOpen D state
      → IsOpen D (run (sqlite_guard D T) rs state log).1
  unfolding run
  run-IsOpen [] state log o = o
  run-IsOpen (r ∷ rs) state log o =
      run-IsOpen rs (check_and_record D r.device r.id r.sequence state).1 _ (call-IsOpen r state o)

module _ (D : ReplayDb) (T : IsTransactional D) (F : ReplayFile D) (U : IsDurable T F) where
  abbrev pub rows_of : Str → Opened D F → Rows
  rows_of path (guard db) = T.rows db
  rows_of path (refused failure disk) = U.on_disk path disk

  exec_then-rows :
      (path : Str) (s : Statement) (what : Str) (next : D.Db → Opened D F) (db : D.Db)
      → ((db' : D.Db) → rows_of path (next db') ≡ T.rows db')
      → rows_of path (exec_then D F path s what next db) ≡ T.rows db
  unfolding exec_then
  exec_then-rows path s what next db h = elim (Bool-cases (F.exec s db).0) [
    | inl e ↦ rw (e, exec_then) (U.close_rows path (F.exec s db).1 ∙ U.exec_rows s db)
    | inr e ↦ rw (e, exec_then) (h (F.exec s db).1 ∙ U.exec_rows s db)
  ]

  -- NewSQLiteReplayGuard changes no row, whatever fails: a guard that it returns has the rows of the
  -- disk, and if it returns an error they are still on the disk.
  pub new_sqlite_replay_guard-rows :
      (path : Str) (disk : F.Disk)
      → rows_of path (new_sqlite_replay_guard D F path disk) ≡ U.on_disk path disk
  unfolding new_sqlite_replay_guard
  new_sqlite_replay_guard-rows path disk = elim (Bool-cases (is_empty path)) [
    | inl e ↦ rw (e, new_sqlite_replay_guard) refl
    | inr e ↦ elim (Bool-cases (F.mkdir_all path disk).0) [
      | inl e' ↦ rw (e, e', new_sqlite_replay_guard) (U.mkdir_rows path disk)
      | inr e' ↦ elim (Option-cases (F.open_db path (F.mkdir_all path disk).1)) [
        | inl e'' ↦ rw (e, e', e'', new_sqlite_replay_guard) (U.mkdir_rows path disk)
        | inr (db, e'') ↦
            rw (e, e', e'', new_sqlite_replay_guard)
              (exec_then-rows path journal_wal _ _ db (λ x.
                  exec_then-rows path busy_timeout (text "replay db busy_timeout") _ x λ y.
                    exec_then-rows path create_tables (text "replay db schema") guard y λ z. refl)
                ∙ U.open_rows path (F.mkdir_all path disk).1 e''
                ∙ U.mkdir_rows path disk)
      ]
    ]
  ]

  leave-Holds :
      (path : Str) (is_closed : Bool) (before : F.Disk) (state : Option D.Db) (log : Log)
      → IsOpen D state
      → Represents D T state log
      → Holds (U.on_disk path (leave D T F path is_closed before state)) log
  unfolding leave
  leave-Holds path false before none log o h = elim o [ ]
  leave-Holds path true before none log o h = elim o [ ]
  leave-Holds path true before (some db) log o h =
      subst (λ x. Holds x log) (sym (U.close_rows path db)) h
  leave-Holds path false before (some db) log o h =
      subst (λ x. Holds x log) (sym (U.lose_rows path db)) h

  -- What a life makes of a disk that holds the log.
  abbrev Kept : Str → Log × F.Disk → Type 0
  Kept path after = Holds (U.on_disk path after.1) after.0 × NoReplay after.0

  live-Kept :
      (path : Str) (l : Life) (log : Log) (disk : F.Disk)
      → Holds (U.on_disk path disk) log
      → NoReplay log
      → Kept path (live D T F path l log disk)
  unfolding live sqlite_guard-IsGuard
  live-Kept path l log disk h n =
      let rows = new_sqlite_replay_guard-rows path disk in
      elim (Opened-cases D F (new_sqlite_replay_guard D F path disk)) [
        | inl (failure, disk', e) ↦
            subst (Kept path) (sym (rw (e, live) refl))
              (subst (λ x. Holds x log) (sym (ap (rows_of path) (sym e) ∙ rows)) h, n)
        | inr (db, e) ↦
            let before = subst (λ x. Holds x log) (sym (ap (rows_of path) (sym e) ∙ rows)) h in
            subst (Kept path) (sym (rw (e, live) refl)) (
              leave-Holds path l.is_closed disk _ _ (run-IsOpen D T l.frames (some db) log tt) (
                  run-Represents (sqlite_guard D T) (sqlite_guard-IsGuard D T) l.frames (some db)
                    log before),
              run-NoReplay (sqlite_guard D T) (sqlite_guard-IsGuard D T) l.frames (some db) log
                  before n,
            )
      ]

  -- Over any lives of the process, with statements failing as they may, whether a life ends with
  -- Close or is cut off after its last call, and starting on a disk with the rows of a log without
  -- replays at the path of the guard: no frame id is accepted twice from a device, and the
  -- sequences accepted from it strictly increase, from one life to the next included.
  pub live_all-NoReplay :
      (path : Str) (ls : List Life) (log : Log) (disk : F.Disk)
      → Holds (U.on_disk path disk) log
      → NoReplay log
      → NoReplay (live_all D T F path ls log disk).0
  unfolding live_all
  live_all-NoReplay path [] log disk h n = n
  live_all-NoReplay path (l ∷ ls) log disk h n =
      let (h', n') = live-Kept path l log disk h n in
      live_all-NoReplay path ls (live D T F path l log disk).0 (live D T F path l log disk).1 h' n'
