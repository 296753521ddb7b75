-- ===== src/Auth/Sqlite/Opening.antt =====
-- server/internal/auth/replay_sqlite.go: NewSQLiteReplayGuard and Close. The file of the database is
-- a parameter, with what database/sql and the driver do to it.
use golem_harness.Base.{Str, text, is_empty, ◌≡◌, Bool, false, Option, none, some, if◌then◌else◌}
use golem_harness.Errors.{Error, malformed, plain}
use golem_harness.Auth.Sqlite.{Rows, ReplayDb, IsTransactional}

-- PRAGMA journal_mode=WAL, PRAGMA busy_timeout=5000, and the two CREATE TABLE IF NOT EXISTS
pub data Statement : Type 0 where
  journal_wal busy_timeout create_tables : Statement

-- The disk, with a database at each path, and an open database, which keeps the path that it was
-- opened with: `close_db` and `lose` are given it. A Boolean answer says whether there was an error.
pub record ReplayFile (D : ReplayDb) : Type 1 where
  pub Disk : Type 0
  -- os.MkdirAll(filepath.Dir(path), 0o755)
  pub mkdir_all : Str → Disk → Bool × Disk
  -- sql.Open and SetMaxOpenConns(1)
  pub open_db : Str → Disk → Option D.Db
  pub exec : Statement → D.Db → Bool × D.Db
  pub close_db : Str → D.Db → Bool × Disk
  -- what is left when the process ends without Close
  pub lose : Str → D.Db → Disk

-- The documented behaviour: what was committed stands on the disk, whether the database was closed or
-- the process ended, and none of the statements changes a row.
pub record IsDurable {D : ReplayDb} (T : IsTransactional D) (F : ReplayFile D) : Type 0 where
  -- the rows of the database at a path
  pub on_disk : Str → F.Disk → Rows
  pub mkdir_rows :
      (path : Str) (disk : F.Disk) → on_disk path (F.mkdir_all path disk).1 ≡ on_disk path disk
  pub open_rows :
      (path : Str) (disk : F.Disk) {db : D.Db}
      → F.open_db path disk ≡ some db
      → T.rows db ≡ on_disk path disk
  pub exec_rows : (s : Statement) (db : D.Db) → T.rows (F.exec s db).1 ≡ T.rows db
  pub close_rows : (path : Str) (db : D.Db) → on_disk path (F.close_db path db).1 ≡ T.rows db
  pub lose_rows : (path : Str) (db : D.Db) → on_disk path (F.lose path db) ≡ T.rows db

module _ (D : ReplayDb) (F : ReplayFile D) where
  -- A guard, or an error and the disk; the text of an error leaves out its cause.
  pub data Opened : Type 0 where
    guard : D.Db → Opened
    refused : Error → F.Disk → Opened

  -- _ = db.Close(), and the error
  abbrev pub closed : Str → Str → D.Db → Opened
  closed path what db = refused (plain what) (F.close_db path db).1

  -- A statement, and what follows if it succeeds.
  unfoldable pub exec_then : Str → Statement → Str → (D.Db → Opened) → D.Db → Opened
  exec_then path s what next db =
      let (bad, db') = F.exec s db in if bad then closed path what db' else next db'

  -- NewSQLiteReplayGuard
  unfoldable pub new_sqlite_replay_guard : Str → F.Disk → Opened
  unfolding exec_then
  new_sqlite_replay_guard path disk =
      if is_empty path
      then refused (malformed (text "replay path is required")) disk
      else let (bad, disk') = F.mkdir_all path disk in
        if bad
        then refused (plain (text "create replay directory")) disk'
        else elim (F.open_db path disk') [
          | none ↦ refused (plain (text "open replay db")) disk'
          | some db ↦
              exec_then path journal_wal (text "replay db wal")
                (exec_then path busy_timeout (text "replay db busy_timeout")
                  (exec_then path create_tables (text "replay db schema") guard))
                db
        ]

  -- Close of a guard with this path; the state `none` is one that is nil or not open.
  unfoldable pub close : Str → Option D.Db → Bool × Option F.Disk
  close path none = (false, none)
  close path (some db) = let (bad, disk) = F.close_db path db in (bad, some disk)
