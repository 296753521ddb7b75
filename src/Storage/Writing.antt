-- ===== src/Storage/Writing.antt =====
-- What a write without an error has done, and that the pipeline's frames are not refused.
use mathlib.Core.Path.{subst}
use golem_harness.Base.{
  ◌+◌, Str, ◌≡◌, ◌≢◌, refl, sym, ap, ◌∙◌, ◌⊎◌, inl, inr, Bool, true, false, Option, none, some, [],
  ◌∷◌, ◌++◌, length, arith, Option-cases,
}
use golem_harness.Base.Int.{pos}
use golem_harness.Clock.{Time}
use golem_harness.Platform.{Platform, newline}
use golem_harness.Trajectory.{RawFrame, SanitizedFrame}
use golem_harness.Sanitize.Redactor.{Pattern}
use golem_harness.Sanitize.Process.{process}
use golem_harness.Sanitize.Outcomes.{Pipeline, or_else}
use golem_harness.Sanitize.Process.Decisions.{process_frame}
use golem_harness.Storage.{
  JsonlSink, Answer, ensure_writer, append_line, write_sanitized_frame, sync_file,
}
use golem_harness.Storage.Paths.{Files, Names, StorageError, validate_sanitized_frame}

-- A frame that comes out of the pipeline passes the sink's validation, if the pipeline's clock
-- does not give the zero time.
pub validate-process :
    (matches : Pattern → Str → Bool) (P : Platform) (clock : Time) (p : Pipeline) (frame : RawFrame)
    (f : SanitizedFrame)
    → or_else p.now clock ≢ pos 0
    → (process matches P clock p frame).1.outcome.frame ≡ some f
    → validate_sanitized_frame f ≡ none
unfolding validate_sanitized_frame
validate-process matches P clock p frame f set h =
    let sound = process_frame matches P clock p frame f h in
    ground (arith, sound.version, sound.marked, sound.stamped, set)

module _ (F : Files) (N : Names) where
  Answer-cases :
      (a : Answer F N)
      → ((s : JsonlSink F N) × (a ≡ (none, s)))
        ⊎ ((x : StorageError) × (s : JsonlSink F N) × (a ≡ (some x, s)))
  Answer-cases (none, s) = inl (s, refl)
  Answer-cases (some x, s) = inr (x, s, refl)

  -- The payload is written to the open file, its bytes are counted, and it is flushed if the
  -- options ask for that.
  pub record IsFlushed (payload : Str) (s t : JsonlSink F N) : Type 0 where
    pub handle : F.Handle
    pub open' : s.file ≡ some handle
    pub wrote : (F.write handle payload s.files).0.1 ≡ false
    pub size : t.size ≡ s.size + (F.write handle payload s.files).0.0
    pub still_open : t.file ≡ some handle
    pub synced :
        s.opts.sync ≡ true
        → ((F.sync handle (F.write handle payload s.files).1).0 ≡ false)
          × (t.files ≡ (F.sync handle (F.write handle payload s.files).1).1)
    pub unsynced : s.opts.sync ≡ false → t.files ≡ (F.write handle payload s.files).1

  append_line-IsFlushed :
      (payload : Str) (s : JsonlSink F N)
      → (append_line F N payload s).0 ≡ none
      → IsFlushed payload s (append_line F N payload s).1
  unfolding append_line sync_file
  append_line-IsFlushed payload s h = elim (Option-cases s.file) [
    | inl e ↦ absurd (ground arith)
    | inr (handle, e) ↦ record {
      handle = handle;
      open' = e;
      wrote = ground arith;
      size = ground arith;
      still_open = ground arith;
      synced = ground arith;
      unsynced = ground arith;
    }
  ]

  -- What a write without an error has done.
  pub record IsAppended (marshal : SanitizedFrame → Option Str) (now : Time)
      (frame : SanitizedFrame) (s t : JsonlSink F N) : Type 0 where
    pub safe : validate_sanitized_frame frame ≡ none
    pub line : Str
    pub encoded : marshal frame ≡ some line
    pub ready : JsonlSink F N
    pub ensured : ensure_writer F N (length (line ++ newline ∷ [])) now s ≡ (none, ready)
    pub flushed : IsFlushed (line ++ newline ∷ []) ready t

  write-append_line :
      (marshal : SanitizedFrame → Option Str) (now : Time) (frame : SanitizedFrame)
      (s ready : JsonlSink F N) (line : Str)
      → validate_sanitized_frame frame ≡ none
      → marshal frame ≡ some line
      → ensure_writer F N (length (line ++ newline ∷ [])) now s ≡ (none, ready)
      → write_sanitized_frame F N marshal false now frame s
        ≡ append_line F N (line ++ newline ∷ []) ready
  unfolding write_sanitized_frame
  write-append_line marshal now frame s ready line safe encoded ensured =
      rw (safe, write_sanitized_frame) (rw (encoded, write_sanitized_frame) (rw ensured))

  -- A write that returns no error has validated and encoded the frame, has made the writer ready,
  -- has written the line with its line feed to the open file, counted its bytes, and flushed it if
  -- the options ask for that.
  pub write_sanitized_frame-IsAppended :
      (marshal : SanitizedFrame → Option Str) (done : Bool) (now : Time) (frame : SanitizedFrame)
      (s : JsonlSink F N)
      → (write_sanitized_frame F N marshal done now frame s).0 ≡ none
      → IsAppended marshal now frame s (write_sanitized_frame F N marshal done now frame s).1
  unfolding write_sanitized_frame
  write_sanitized_frame-IsAppended marshal true now frame s h = absurd (ground arith)
  write_sanitized_frame-IsAppended marshal false now frame s h =
      elim (Option-cases (validate_sanitized_frame frame)) [
        | inr (x, e) ↦ absurd (ground arith)
        | inl e ↦ elim (Option-cases (marshal frame)) [
          | inl e' ↦ absurd (ground arith)
          | inr (line, e') ↦
              elim (Answer-cases (ensure_writer F N (length (line ++ newline ∷ [])) now s)) [
                | inr (x, t, e'') ↦ absurd (ground arith)
                | inl (ready, e'') ↦
                    let same = write-append_line marshal now frame s ready line e e' e'' in
                    record {
                      safe = e;
                      line = line;
                      encoded = e';
                      ready = ready;
                      ensured = e'';
                      flushed =
                          subst (λ a. IsFlushed (line ++ newline ∷ []) ready a.1) (sym same)
                            (append_line-IsFlushed _ ready (sym (ap (λ a. a.0) same) ∙ h));
                    }
              ]
        ]
      ]
