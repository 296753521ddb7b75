-- ===== src/Storage/Settings.antt =====
-- What rotating and closing leave of a sink: its path and its options. And that closing twice is
-- closing once.
use golem_harness.Base.{
  ℕ, zero, suc, ◌+◌, Str, ◌≡◌, refl, ◌∙◌, inl, inr, true, false, none, some, [], arith,
  Option-cases,
}
use golem_harness.Clock.{Time}
use golem_harness.Storage.{
  JsonlSink, Answer, proceed, close_file, close, rename_to, rename_free, rotate_path, rotate,
  rotate_found,
}
use golem_harness.Storage.Paths.{Files, Names, candidate, archive_stamp}
use golem_harness.Storage.Rotation.{Stat-cases}

module _ (F : Files) (N : Names) where
  -- The same sink, on files that may have changed.
  pub record IsSame (s t : JsonlSink F N) : Type 0 where
    pub path : t.path ≡ s.path
    pub opts : t.opts ≡ s.opts
    pub file : t.file ≡ s.file

  same : (s : JsonlSink F N) → IsSame s s
  same s = record { path = refl; opts = refl; file = refl }

  rename_free-IsSame :
      (left i : ℕ) (dest : Str) (s : JsonlSink F N) → IsSame s (rename_free F N left i dest s).1
  unfolding rename_free rename_to
  rename_free-IsSame zero i dest s = same s
  rename_free-IsSame (suc left) i dest s =
      elim (Stat-cases F N (F.stat (candidate dest i) s.files)) [
        | inl e ↦ rw (e, rename_free) (record { path = refl; opts = refl; file = refl })
        | inr (inl e) ↦ rw (e, rename_free) (same s)
        | inr (inr (n, t, e)) ↦ rw (e, rename_free) (rename_free-IsSame left (i + 1) dest s)
      ]

  rotate_path-IsSame : (stamp : Str) (s : JsonlSink F N) → IsSame s (rotate_path F N stamp s).1
  unfolding rotate_path
  rotate_path-IsSame stamp s = elim (Stat-cases F N (F.stat s.path s.files)) [
    | inl e ↦ rw (e, rotate_path) (same s)
    | inr (inl e) ↦ rw (e, rotate_path) (same s)
    | inr (inr (n, t, e)) ↦ rw (e, rotate_path) (rename_free-IsSame 100 0 _ s)
  ]

  pub rotate_found-IsSame :
      (next : ℕ) (now : Time) (size : ℕ) (time : Time) (s : JsonlSink F N)
      → IsSame s (rotate_found F N next now size time s).1
  unfolding rotate_found
  rotate_found-IsSame next now size time s = ground (
    arith,
    rotate_path-IsSame (archive_stamp N (N.day_of time) now true) s,
    rotate_path-IsSame (archive_stamp N [] now false) s,
    same s,
  )

  -- A call that goes on after a step has gone on from where the step ended.
  pub proceed-answers :
      (P : JsonlSink F N → Type 0) (a : Answer F N) (f : JsonlSink F N → Answer F N)
      → (a.0 ≡ none → (f a.1).0 ≡ none → P (f a.1).1)
      → (proceed F N a f).0 ≡ none
      → P (proceed F N a f).1
  proceed-answers P (some x, s) f go h = absurd (ground arith)
  proceed-answers P (none, s) f go h = go refl h

  -- The sink's settings, with no file open.
  pub record IsClosed (s t : JsonlSink F N) : Type 0 where
    pub file : t.file ≡ none
    pub path : t.path ≡ s.path
    pub opts : t.opts ≡ s.opts

  close_file-IsClosed : (s : JsonlSink F N) → IsClosed s (close_file F N s).1
  unfolding close_file
  close_file-IsClosed s = elim (Option-cases s.file) [
    | inl e ↦ record { file = ground arith; path = ground arith; opts = ground arith }
    | inr (h, e) ↦ record { file = ground arith; path = ground arith; opts = ground arith }
  ]

  -- A second Close has no error and changes nothing.
  close_again : (s : JsonlSink F N) → close F N (close F N s).1 ≡ (none, (close F N s).1)
  unfolding close close_file
  close_again s = elim (Option-cases s.file) [ inl e ↦ ground arith | inr (h, e) ↦ ground arith ]

  pub rotate-IsClosed :
      (stamp : Str) (s : JsonlSink F N)
      → (rotate F N stamp s).0 ≡ none
      → IsClosed s (rotate F N stamp s).1
  unfolding rotate
  rotate-IsClosed stamp s =
      proceed-answers (IsClosed s) (close_file F N s) (rotate_path F N stamp) λ fine fine'.
        let c = close_file-IsClosed s in
        let k = rotate_path-IsSame stamp (close_file F N s).1 in
        record { file = k.file ∙ c.file; path = k.path ∙ c.path; opts = k.opts ∙ c.opts }
