-- ===== src/Auth/Sqlite/Laws.antt =====
-- SQLiteReplayGuard over any transactional database: it changes rows only when it accepts, and it
-- implements the log of accepted frames.
use golem_harness.Base.{ℕ, Str, ◌<◌, ◌≡◌, false, Option, none, some, arith, Option-cases, inl, inr}
use golem_harness.Errors.{Error}
use golem_harness.Auth.Sqlite.{
  Rows, insert_seen, upsert_max, ReplayDb, IsTransactional, or_zero, finish, upsert_and_commit,
  write, check_sequence, check_frame, begun,
}

-- The rows after an answer.
abbrev pub rows_after : Str → Str → ℕ → Rows → Option Error → Rows
rows_after d f n rows none = upsert_max d n (insert_seen d f rows)
rows_after d f n rows (some refusal) = rows

module _ (D : ReplayDb) (T : IsTransactional D) where
  finish-rows :
      (tx : D.Tx)
      → T.rows (finish D tx).1 ≡ (elim (finish D tx).0 [ none ↦ T.tx_rows tx | some e ↦ T.base tx ])
  unfolding finish
  finish-rows tx = ground (arith, T.commit_rows tx, T.commit_failed tx)

  upsert_and_commit-rows :
      (d : Str) (n : ℕ) (tx : D.Tx)
      → T.rows (upsert_and_commit D d n tx).1 ≡ (elim (upsert_and_commit D d n tx).0 [
        | none ↦ upsert_max d n (T.tx_rows tx)
        | some e ↦ T.base tx
      ])
  unfolding upsert_and_commit
  upsert_and_commit-rows d n tx = elim (Option-cases (D.upsert_sequence d n tx)) [
    | inl e ↦ rw (e, upsert_and_commit) (T.rollback_rows tx)
    | inr (tx', e) ↦
        rw (e, upsert_and_commit)
          (ground (arith, finish-rows tx', T.upsert_rows d n tx e, T.upsert_base d n tx e))
  ]

  write-rows :
      (d f : Str) (n : ℕ) (tx : D.Tx)
      → T.tx_rows tx ≡ T.base tx
      → T.rows (write D d f n tx).1 ≡ rows_after d f n (T.base tx) (write D d f n tx).0
  unfolding write
  write-rows d f n tx h = elim (Option-cases (D.insert_frame d f tx)) [
    | inl e ↦ rw (e, write) (T.rollback_rows tx)
    | inr (tx', e) ↦
        rw (e, write)
          (ground
            (arith, upsert_and_commit-rows d n tx', T.insert_rows d f tx e, T.insert_base d f tx e))
  ]

  check_sequence-rows :
      (d f : Str) (n : ℕ) (tx : D.Tx)
      → T.tx_rows tx ≡ T.base tx
      → T.rows (check_sequence D d f n tx).1
        ≡ rows_after d f n (T.base tx) (check_sequence D d f n tx).0
  unfolding check_sequence
  check_sequence-rows d f n tx h = ground (arith, T.rollback_rows tx, write-rows d f n tx h)

  check_frame-rows :
      (d f : Str) (n : ℕ) (tx : D.Tx)
      → T.tx_rows tx ≡ T.base tx
      → T.rows (check_frame D d f n tx).1 ≡ rows_after d f n (T.base tx) (check_frame D d f n tx).0
  unfolding check_frame
  check_frame-rows d f n tx h = ground (arith, T.rollback_rows tx, check_sequence-rows d f n tx h)

  -- The rows of an open guard after a call are those before it, or with the frame's row and the
  -- device's sequence written if the call accepts.
  pub begun-rows :
      (d f : Str) (n : ℕ) (db : D.Db)
      → T.rows (begun D d f n db).1 ≡ rows_after d f n (T.rows db) (begun D d f n db).0
  unfolding begun
  begun-rows d f n db = elim (Option-cases (D.begin db)) [
    | inl e ↦ rw (e, begun)
    | inr (tx, e) ↦
        rw (e, begun)
          (ground (arith, check_frame-rows d f n tx, T.begin_tx_rows db e, T.begin_base db e))
  ]

  pub check_frame-none :
      (d f : Str) (n : ℕ) (tx : D.Tx)
      → (check_frame D d f n tx).0 ≡ none
      → ((T.tx_rows tx).seen d f ≡ false) × (or_zero ((T.tx_rows tx).max_sequence d) < n)
  unfolding check_frame check_sequence
  check_frame-none d f n tx h = elim (Option-cases (D.select_frame d f tx)) [
    | inl e ↦ absurd (ground arith)
    | inr (b, e) ↦ elim (Option-cases (D.select_max_sequence d tx)) [
      | inl e' ↦ absurd (ground arith)
      | inr (m, e') ↦
          let seen = T.select_frame_seen d f tx e in
          let top = T.select_max d tx e' in (ground arith, ground arith)
    ]
  ]

  -- A frame that is accepted had no row, and its sequence passes the device's.
  pub begun-none :
      (d f : Str) (n : ℕ) (db : D.Db)
      → (begun D d f n db).0 ≡ none
      → ((T.rows db).seen d f ≡ false) × (or_zero ((T.rows db).max_sequence d) < n)
  unfolding begun
  begun-none d f n db h = elim (Option-cases (D.begin db)) [
    | inl e ↦ absurd (ground arith)
    | inr (tx, e) ↦ ground (arith, T.begin_tx_rows db e, check_frame-none d f n tx)
  ]
