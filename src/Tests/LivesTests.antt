-- ===== src/Tests/LivesTests.antt =====
-- The SQLite guard over two lives of the process, on a disk that keeps plain tables.
use golem_harness.Base.{text, str_eq, ◌≡◌, refl, sym, true, false, some, [], ◌∷◌}
use golem_harness.Auth.Log.{Log, NoReplay}
use golem_harness.Auth.Guard.{run}
use golem_harness.Auth.Sqlite.{Rows, check_and_record}
use golem_harness.Auth.Sqlite.Opening.{ReplayFile, IsDurable, new_sqlite_replay_guard, exec_then}
use golem_harness.Auth.Sqlite.Lives.{Life, live, live_all, live_all-NoReplay}
use golem_harness.Tests.GuardTests.{
  first, second, again, tables, tables-IsTransactional, no_rows, Holds-no_rows, some_injective,
}

-- Every call succeeds, and the disk has one database, whose rows it keeps.
abbrev pub file : ReplayFile tables
file = record {
  Disk = Rows;
  mkdir_all = λ path disk. (false, disk);
  open_db = λ path disk. some disk;
  exec = λ s db. (false, db);
  close_db = λ path db. (false, db);
  lose = λ path db. db;
}

unfoldable pub file-IsDurable : IsDurable tables-IsTransactional file
unfolding tables-IsTransactional
file-IsDurable = record {
  on_disk = λ path disk. disk;
  mkdir_rows = λ path disk. refl;
  open_rows = λ path disk e. sym (some_injective e);
  exec_rows = λ s db. refl;
  close_rows = λ path db. refl;
  lose_rows = λ path db. refl;
}

-- A life that is cut off, and one that sends its first frame again, under both of its disguises.
abbrev cut_off : Life
cut_off = record { frames = first ∷ []; is_closed = false }

abbrev restarted : Life
restarted = record { frames = first ∷ again ∷ second ∷ []; is_closed = true }

abbrev lives : Log × Rows
lives =
    live_all tables tables-IsTransactional file (text "replay.db") (cut_off ∷ restarted ∷ []) []
      no_rows

-- The second life accepts the second frame only.
accepted_twice : lives.0 ≡ second ∷ first ∷ []
unfolding live_all live new_sqlite_replay_guard exec_then run check_and_record str_eq text
accepted_twice = refl

live_all-NoReplay_example : NoReplay lives.0
unfolding file-IsDurable
live_all-NoReplay_example =
    live_all-NoReplay tables tables-IsTransactional file file-IsDurable (text "replay.db")
      (cut_off ∷ restarted ∷ []) [] no_rows Holds-no_rows tt
