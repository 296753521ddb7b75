-- ===== src/Tests/GuardTests.antt =====
-- The two replay guards, the second over a database of plain tables that never fails.
use golem_harness.Base.{
  text, str_eq, ◌≡◌, refl, sym, ap, Bool, true, false, Option, none, some, [], ◌∷◌, arith,
}
use golem_harness.Base.Int.{pos}
use golem_harness.Base.Dict.{lookup, insert}
use golem_harness.Errors.{replay, replay_state_full}
use golem_harness.Auth.Log.{Frame, NoReplay, max_sequence, frame_seen, accepted_count}
use golem_harness.Auth.Guard.{run}
use golem_harness.Auth.Memory.{
  new_memory_replay_guard, ensure, contains, limit_of, check_and_record,
  set_max_seen_frames_for_test,
}
use golem_harness.Auth.Memory.Laws.{
  Represents-new, answer, check_and_record-answer, memory_guard, memory_guard-NoReplay,
}
use golem_harness.Auth.Sqlite.{Rows, insert_seen, upsert_max, ReplayDb, IsTransactional, or_zero}
use golem_harness.Auth.Sqlite
use golem_harness.Auth.Sqlite.Laws.{rows_after}
use golem_harness.Auth.Sqlite.Implements.{Holds, IsReliable, call_atomic, call-eq-memory}

abbrev pub first : Frame
first = record { device = text "d1"; id = text "f1"; sequence = 5 }

abbrev pub second : Frame
second = record { device = text "d1"; id = text "f2"; sequence = 6 }

abbrev pub again : Frame
again = record { device = text "d1"; id = text "f1"; sequence = 9 }

memory_guard-NoReplay_example :
    NoReplay
      (run memory_guard
        (first ∷ second ∷ again ∷ [])
        (record new_memory_replay_guard { devices = [] })
        []).0
memory_guard-NoReplay_example =
    memory_guard-NoReplay (first ∷ second ∷ again ∷ []) new_memory_replay_guard

check_and_record-answer_example :
    (check_and_record (text "d1") (text "f1") 5 new_memory_replay_guard).0
    ≡ answer (limit_of new_memory_replay_guard) [] first
check_and_record-answer_example =
    check_and_record-answer first new_memory_replay_guard []
      (Represents-new new_memory_replay_guard)

-- The frame id that came before is a replay, and a guard of one frame is full after it.
two_answers :
    let g = (check_and_record (text "d1") (text "f1") 5 new_memory_replay_guard).1 in
    ((check_and_record (text "d1") (text "f1") 9 g).0 ≡ some replay)
    × ((check_and_record (text "d1") (text "f2") 9 (set_max_seen_frames_for_test (pos 1) g)).0
        ≡ some replay_state_full)
unfolding check_and_record set_max_seen_frames_for_test ensure contains lookup insert str_eq text
two_answers = (refl, refl)

-- A transaction holds the rows that it has written and those that it began with.
abbrev pub tables : ReplayDb
tables = record {
  Db = Rows;
  Tx = Rows × Rows;
  begin = λ db. some (db, db);
  select_frame = λ d f tx. some (tx.0.seen d f);
  select_max_sequence = λ d tx. some (tx.0.max_sequence d);
  insert_frame = λ d f tx. some (insert_seen d f tx.0, tx.1);
  upsert_sequence = λ d n tx. some (upsert_max d n tx.0, tx.1);
  commit = λ tx. (true, tx.0);
  rollback = λ tx. tx.1;
}

pub some_injective {ℓ} : {A : Type ℓ} {a b : A} → ◌≡◌ {A = Option A} (some a) (some b) → a ≡ b
some_injective e = cc

unfoldable pub tables-IsTransactional : IsTransactional tables
tables-IsTransactional = record {
  rows = λ db. db;
  tx_rows = λ tx. tx.0;
  base = λ tx. tx.1;
  begin_tx_rows = λ db e. ap (λ x. x.0) (sym (some_injective e));
  begin_base = λ db e. ap (λ x. x.1) (sym (some_injective e));
  select_frame_seen = λ d f tx e. sym (some_injective e);
  select_max = λ d tx e. sym (some_injective e);
  insert_rows = λ d f tx e. ap (λ x. x.0) (sym (some_injective e));
  insert_base = λ d f tx e. ap (λ x. x.1) (sym (some_injective e));
  upsert_rows = λ d n tx e. ap (λ x. x.0) (sym (some_injective e));
  upsert_base = λ d n tx e. ap (λ x. x.1) (sym (some_injective e));
  commit_rows = λ tx e. refl;
  commit_failed = λ tx e. absurd (true-ne-false e);
  rollback_rows = λ tx. refl;
}
  where
    true-ne-false : ◌≡◌ {A = Bool} true false → ⊥
    true-ne-false e = cc

tables-IsReliable : IsReliable tables tables-IsTransactional
tables-IsReliable = record {
  begins = λ db. ((db, db), refl);
  finds_frame = λ d f tx. (tx.0.seen d f, refl);
  finds_sequence = λ d tx. (tx.0.max_sequence d, refl);
  inserts = λ d f tx. ((insert_seen d f tx.0, tx.1), refl);
  upserts = λ d n tx h. ((upsert_max d n tx.0, tx.1), refl);
  commits = λ tx. refl;
}

abbrev pub no_rows : Rows
no_rows = record { seen = λ d f. false; max_sequence = λ d. none }

pub Holds-no_rows : Holds no_rows []
unfolding frame_seen max_sequence
Holds-no_rows = record { seen_of = λ d f. refl; max_of = λ d. refl }

accepted_first :
    Sqlite.check_and_record tables (text "d1") (text "f1") 5 (some no_rows)
    ≡ (none, some (upsert_max (text "d1") 5 (insert_seen (text "d1") (text "f1") no_rows)))
unfolding Sqlite.check_and_record text
accepted_first = refl

call_atomic_example :
    upsert_max (text "d1") 5 (insert_seen (text "d1") (text "f1") no_rows)
    ≡ rows_after (text "d1") (text "f1") 5 no_rows none
unfolding tables-IsTransactional
call_atomic_example = call_atomic tables tables-IsTransactional first no_rows accepted_first

call-eq-memory_example :
    (Sqlite.check_and_record tables (text "d1") (text "f1") 5 (some no_rows)).0
    ≡ (check_and_record (text "d1") (text "f1") 5 new_memory_replay_guard).0
unfolding accepted_count tables-IsTransactional
call-eq-memory_example =
    call-eq-memory tables tables-IsTransactional tables-IsReliable first no_rows
      new_memory_replay_guard [] Holds-no_rows (Represents-new new_memory_replay_guard)
      (omega arith) (omega arith)
