-- ===== src/Storage/Lives.antt =====
-- The sink over any sequence of writes and closes.
use golem_harness.Base.{
  ℕ, zero, suc, ◌+◌, Str, ◌≡◌, inl, inr, Bool, true, false, Option, none, some, [], ◌∷◌, ◌++◌,
  length, arith, Option-cases, if◌then◌else◌,
}
use golem_harness.Clock.{Time}
use golem_harness.Platform.{newline}
use golem_harness.Trajectory.{SanitizedFrame}
use golem_harness.Storage.{
  JsonlSink, Answer, proceed, close_file, close, rename_to, rename_free, rotate_path, rotate,
  rotate_open, rotate_found, open_file, reopen, ensure_writer, sync_file, append_line,
  write_sanitized_frame, new_jsonl_sink_with_options,
}
use golem_harness.Storage.Paths.{
  Files, Names, JsonlOptions, candidate, archive_stamp, validate_sanitized_frame,
}
use golem_harness.Storage.Rotation.{Stat-cases}

module _ (F : Files) (N : Names) (path : Str) (opts : JsonlOptions) where
  -- The sink has the path and the options that it was made with, and counts no bytes and knows no
  -- day where no file is open.
  pub record IsTidy (s : JsonlSink F N) : Type 0 where
    pub same_path : s.path ≡ path
    pub same_opts : s.opts ≡ opts
    pub no_size : s.file ≡ none → s.size ≡ 0
    pub no_day : s.file ≡ none → s.day ≡ []

  proceed-IsTidy :
      (a : Answer F N) (f : JsonlSink F N → Answer F N)
      → IsTidy a.1
      → ((s : JsonlSink F N) → IsTidy s → IsTidy (f s).1)
      → IsTidy (proceed F N a f).1
  proceed-IsTidy (some x, s) f tidy go = tidy
  proceed-IsTidy (none, s) f tidy go = go s tidy

  choice-IsTidy :
      (b : Bool) (x y : Answer F N) → IsTidy x.1 → IsTidy y.1 → IsTidy (if b then x else y).1
  choice-IsTidy true x y p q = p
  choice-IsTidy false x y p q = q

  -- Only the files change.
  moved-IsTidy :
      (s : JsonlSink F N) (files : F.State) → IsTidy s → IsTidy (record s { files = files })
  moved-IsTidy s files tidy = record {
    same_path = tidy.same_path;
    same_opts = tidy.same_opts;
    no_size = tidy.no_size;
    no_day = tidy.no_day;
  }

  close_file-IsTidy : (s : JsonlSink F N) → IsTidy s → IsTidy (close_file F N s).1
  unfolding close_file
  close_file-IsTidy s tidy = elim (Option-cases s.file) [
    | inl e ↦ rw (e, close_file) tidy
    | inr (h, e) ↦ record {
      same_path = ground (arith, tidy.same_path);
      same_opts = ground (arith, tidy.same_opts);
      no_size = λ shut. ground arith;
      no_day = λ shut. ground arith;
    }
  ]

  rename_free-IsTidy :
      (left i : ℕ) (dest : Str) (s : JsonlSink F N)
      → IsTidy s
      → IsTidy (rename_free F N left i dest s).1
  unfolding rename_free rename_to
  rename_free-IsTidy zero i dest s tidy = tidy
  rename_free-IsTidy (suc left) i dest s tidy =
      elim (Stat-cases F N (F.stat (candidate dest i) s.files)) [
        | inl e ↦ rw (e, rename_free) (moved-IsTidy s _ tidy)
        | inr (inl e) ↦ rw (e, rename_free) tidy
        | inr (inr (n, t, e)) ↦ rw (e, rename_free) (rename_free-IsTidy left (i + 1) dest s tidy)
      ]

  rotate_path-IsTidy :
      (stamp : Str) (s : JsonlSink F N) → IsTidy s → IsTidy (rotate_path F N stamp s).1
  unfolding rotate_path
  rotate_path-IsTidy stamp s tidy = elim (Stat-cases F N (F.stat s.path s.files)) [
    | inl e ↦ rw (e, rotate_path) tidy
    | inr (inl e) ↦ rw (e, rotate_path) tidy
    | inr (inr (n, t, e)) ↦ rw (e, rotate_path) (rename_free-IsTidy 100 0 _ s tidy)
  ]

  rotate-IsTidy : (stamp : Str) (s : JsonlSink F N) → IsTidy s → IsTidy (rotate F N stamp s).1
  unfolding rotate
  rotate-IsTidy stamp s tidy =
      proceed-IsTidy (close_file F N s) _ (close_file-IsTidy s tidy) (rotate_path-IsTidy stamp)

  open_file-IsTidy : (now : Time) (s : JsonlSink F N) → IsTidy s → IsTidy (open_file F N now s).1
  unfolding open_file
  open_file-IsTidy now s tidy = elim (Option-cases (F.open_append s.path s.files).0) [
    | inl e ↦ rw (e, open_file) (moved-IsTidy s _ tidy)
    | inr (h, e) ↦ record {
      same_path = ground (arith, tidy.same_path);
      same_opts = ground (arith, tidy.same_opts);
      no_size = λ shut. absurd (ground arith);
      no_day = λ shut. absurd (ground arith);
    }
  ]

  rotate_found-IsTidy :
      (next : ℕ) (now : Time) (size : ℕ) (time : Time) (s : JsonlSink F N)
      → IsTidy s
      → IsTidy (rotate_found F N next now size time s).1
  unfolding rotate_found
  rotate_found-IsTidy next now size time s tidy = ground (
    arith,
    tidy,
    rotate_path-IsTidy (archive_stamp N (N.day_of time) now true) s tidy,
    rotate_path-IsTidy (archive_stamp N [] now false) s tidy,
  )

  rotate_open-IsTidy :
      (next : ℕ) (now : Time) (s : JsonlSink F N) → IsTidy s → IsTidy (rotate_open F N next now s).1
  unfolding rotate_open
  rotate_open-IsTidy next now s tidy = elim (Option-cases s.file) [
    | inl e ↦ simp (e, rotate_open) tidy
    | inr (h, e) ↦ simp (e, rotate_open) (choice-IsTidy _ _ _ (rotate-IsTidy _ s tidy) tidy)
  ]

  reopen-IsTidy :
      (next : ℕ) (now : Time) (s : JsonlSink F N) → IsTidy s → IsTidy (reopen F N next now s).1
  unfolding reopen
  reopen-IsTidy next now s tidy = elim (Stat-cases F N (F.stat s.path s.files)) [
    | inl e ↦ rw (e, reopen) (open_file-IsTidy now s tidy)
    | inr (inl e) ↦ rw (e, reopen) tidy
    | inr (inr (n, t, e)) ↦
        rw (e, reopen)
          (proceed-IsTidy (rotate_found F N next now n t s) _
            (rotate_found-IsTidy next now n t s tidy) (open_file-IsTidy now))
  ]

  writer-IsTidy :
      (next : ℕ) (now : Time) (s : JsonlSink F N) (x : Option F.Handle)
      → IsTidy s
      → IsTidy (elim x as (λ y. Answer F N) [ none ↦ reopen F N next now s | some h ↦ (none, s) ]).1
  writer-IsTidy next now s none tidy = reopen-IsTidy next now s tidy
  writer-IsTidy next now s (some h) tidy = tidy

  ensure_writer-IsTidy :
      (next : ℕ) (now : Time) (s : JsonlSink F N)
      → IsTidy s
      → IsTidy (ensure_writer F N next now s).1
  unfolding ensure_writer
  ensure_writer-IsTidy next now s tidy =
      proceed-IsTidy (rotate_open F N next now s) _ (rotate_open-IsTidy next now s tidy)
        λ t tidy'. writer-IsTidy next now t t.file tidy'

  append_line-IsTidy :
      (payload : Str) (s : JsonlSink F N) → IsTidy s → IsTidy (append_line F N payload s).1
  unfolding append_line sync_file
  append_line-IsTidy payload s tidy = elim (Option-cases s.file) [
    | inl e ↦ simp (e, append_line) tidy
    | inr (h, e) ↦ record {
      same_path = ground (arith, tidy.same_path);
      same_opts = ground (arith, tidy.same_opts);
      no_size = λ shut. absurd (ground arith);
      no_day = λ shut. absurd (ground arith);
    }
  ]

  module _ (marshal : SanitizedFrame → Option Str) where
    write_sanitized_frame-IsTidy :
        (done : Bool) (now : Time) (frame : SanitizedFrame) (s : JsonlSink F N)
        → IsTidy s
        → IsTidy (write_sanitized_frame F N marshal done now frame s).1
    unfolding write_sanitized_frame
    write_sanitized_frame-IsTidy true now frame s tidy = tidy
    write_sanitized_frame-IsTidy false now frame s tidy =
        elim (Option-cases (validate_sanitized_frame frame)) [
          | inr (x, e) ↦ rw (e, write_sanitized_frame) tidy
          | inl e ↦ elim (Option-cases (marshal frame)) [
            | inl e' ↦ rw (e, write_sanitized_frame) (rw (e', write_sanitized_frame) tidy)
            | inr (line, e') ↦
                let payload = line ++ newline ∷ [] in
                rw (e, write_sanitized_frame)
                  (rw (e', write_sanitized_frame)
                    (proceed-IsTidy (ensure_writer F N (length payload) now s) _
                      (ensure_writer-IsTidy (length payload) now s tidy)
                      (append_line-IsTidy payload)))
          ]
        ]

    -- What a sink may become: calls of WriteSanitizedFrame and of Close, whatever they answer.
    pub data Used (first : JsonlSink F N) : JsonlSink F N → Type 0 where
      made : Used first first
      wrote :
          {s : JsonlSink F N} (done : Bool) (now : Time) (frame : SanitizedFrame)
          → Used first s
          → Used first (write_sanitized_frame F N marshal done now frame s).1
      closed : {s : JsonlSink F N} → Used first s → Used first (close F N s).1

    made-IsTidy :
        (unmade : Bool) (files : F.State) (first : JsonlSink F N)
        → new_jsonl_sink_with_options F N unmade path opts files ≡ some first
        → IsTidy first
    unfolding new_jsonl_sink_with_options
    made-IsTidy unmade files first h = record {
      same_path = ground arith;
      same_opts = ground arith;
      no_size = λ shut. ground arith;
      no_day = λ shut. ground arith;
    }

    -- A sink from NewJSONLSinkWithOptions keeps its path and its options through any calls of
    -- WriteSanitizedFrame and Close, failed ones included, and counts no bytes and knows no day
    -- where no file is open.
    pub used-IsTidy :
        (unmade : Bool) (files : F.State) (first s : JsonlSink F N)
        → new_jsonl_sink_with_options F N unmade path opts files ≡ some first
        → Used first s
        → IsTidy s
    unfolding close
    used-IsTidy unmade files first _ h made = made-IsTidy unmade files first h
    used-IsTidy unmade files first _ h (wrote done now frame used) =
        write_sanitized_frame-IsTidy done now frame _ (used-IsTidy unmade files first _ h used)
    used-IsTidy unmade files first _ h (closed used) =
        close_file-IsTidy _ (used-IsTidy unmade files first _ h used)
