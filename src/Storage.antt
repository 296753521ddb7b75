-- ===== src/Storage.antt =====
-- server/internal/storage/storage.go: the JSONL sink. The files are a parameter, with the calls of
-- package os that the sink makes, and so are the parts of a path and the print of a time.
pub mod Limits
pub mod Lives
pub mod Paths
pub mod Rotation
pub mod Settings
pub mod Writing
use golem_harness.Base.{
  ℕ, zero, suc, ◌+◌, Str, text, is_empty, str_eq, Bool, true, false, ◌||◌, ◌&&◌, not, Option, none,
  some, List, [], ◌∷◌, ◌++◌, length, ltb, ◌==◌, if◌then◌else◌,
}
use golem_harness.Base.Int.{ℤ, pos, ltb_ℤ}
use golem_harness.Clock.{Time, is_zero}
use golem_harness.Platform.{newline}
use golem_harness.Decimal.{decimal}
use golem_harness.Trajectory.{Decision, accept, drop, quarantine, other, SanitizedFrame}
use golem_harness.Storage.Paths.{
  Stat, missing, unreadable, found, Files, Names, JsonlOptions, default_jsonl_options, StorageError,
  unsafe_frame, canceled, failed, is_accept, validate_sanitized_frame, trim_suffix, archive_stamp,
  rotated_path, candidate,
}

module _ (F : Files) (N : Names) where
  -- type JSONLSink, with the files that it works on. The clock is an argument of the calls.
  pub record JsonlSink : Type 0 where
    pub path : Str
    pub opts : JsonlOptions
    pub file : Option F.Handle
    pub size : ℕ
    pub day : Str
    pub files : F.State

  abbrev pub Answer : Type 0
  Answer = Option StorageError × JsonlSink

  -- What a call does after a step: it stops at an error and goes on otherwise.
  abbrev pub proceed : Answer → (JsonlSink → Answer) → Answer
  proceed (some refusal, s) next = (some refusal, s)
  proceed (none, s) next = next s

  -- closeFile
  unfoldable pub close_file : JsonlSink → Answer
  close_file s = elim s.file [
    | none ↦ (none, s)
    | some h ↦
        let (bad, files) = F.close h s.files in
        (
          if bad then some (failed (text "close")) else none,
          record s { file = none; size = 0; day = []; files = files },
        )
  ]

  -- Close
  unfoldable pub close : JsonlSink → Answer
  close s = close_file s

  unfoldable pub rename_to : Str → JsonlSink → Answer
  rename_to dest s =
      let (bad, files) = F.rename s.path dest s.files in
      (if bad then some (failed (text "rotate storage sink")) else none, record s { files = files })

  -- The loop of rotatePathLocked: `left` more candidates, from number i on.
  unfoldable pub rename_free : ℕ → ℕ → Str → JsonlSink → Answer
  unfolding rename_to
  rename_free zero i dest s =
      (some (failed (text "rotate storage sink: could not find free archive name")), s)
  rename_free (suc left) i dest s =
      let later = rename_free left (i + 1) dest s in
      elim (F.stat (candidate dest i) s.files) [
        | missing ↦ rename_to (candidate dest i) s
        | unreadable ↦ (some (failed (text "stat rotated sink")), s)
        | found size time ↦ later
      ]

  -- rotatePathLocked
  unfoldable pub rotate_path : Str → JsonlSink → Answer
  rotate_path stamp s = elim (F.stat s.path s.files) [
    | missing ↦ (none, s)
    | unreadable ↦ (some (failed (text "stat storage sink for rotate")), s)
    | found size time ↦ rename_free 100 0 (rotated_path N s.path stamp) s
  ]

  -- rotateLocked
  unfoldable pub rotate : Str → JsonlSink → Answer
  rotate stamp s = proceed (close_file s) (rotate_path stamp)

  -- s.opts.MaxBytes > 0 && size+next > s.opts.MaxBytes
  abbrev pub over_limit : JsonlSink → ℕ → ℕ → Bool
  over_limit s size next =
      ltb_ℤ (pos 0) s.opts.max_bytes && ltb_ℤ s.opts.max_bytes (pos (size + next))

  -- The rotation of an open file.
  unfoldable pub rotate_open : ℕ → Time → JsonlSink → Answer
  rotate_open next now s =
      let day = N.day_of now in
      let day_boundary = s.opts.rotate_daily && not (is_empty s.day) && not (str_eq day s.day) in
      elim s.file [
        | none ↦ (none, s)
        | some h ↦
            if day_boundary || over_limit s s.size next
            then rotate (archive_stamp N s.day now day_boundary) s
            else (none, s)
      ]

  -- The rotation of a file of an earlier run; at most one of the two takes place.
  unfoldable pub rotate_found : ℕ → Time → ℕ → Time → JsonlSink → Answer
  rotate_found next now size time s =
      let file_day = N.day_of time in
      if s.opts.rotate_daily && not (str_eq file_day (N.day_of now)) && ltb 0 size
      then rotate_path (archive_stamp N file_day now true) s
      else if over_limit s size next && ltb 0 size
      then rotate_path (archive_stamp N [] now false) s
      else (none, s)

  unfoldable pub open_file : Time → JsonlSink → Answer
  open_file now s =
      let (opened, files) = F.open_append s.path s.files in
      elim opened [
        | none ↦ (some (failed (text "open storage sink")), record s { files = files })
        | some h ↦ (
          none,
          record s {
            file = some h;
            size = elim (F.file_size h files) [ none ↦ 0 | some n ↦ n ];
            day = N.day_of now;
            files = files;
          },
        )
      ]

  -- ensureWriter, where no file is open
  unfoldable pub reopen : ℕ → Time → JsonlSink → Answer
  reopen next now s = elim (F.stat s.path s.files) [
    | missing ↦ open_file now s
    | unreadable ↦ (some (failed (text "stat storage sink")), s)
    | found size time ↦ proceed (rotate_found next now size time s) (open_file now)
  ]

  -- ensureWriter
  unfoldable pub ensure_writer : ℕ → Time → JsonlSink → Answer
  ensure_writer next now s =
      proceed (rotate_open next now s)
        λ s'. elim s'.file [ none ↦ reopen next now s' | some h ↦ (none, s') ]

  sync_file : F.Handle → JsonlSink → Answer
  sync_file h s =
      let (lost, files) = F.sync h s.files in
      (
        if lost then some (failed (text "sync sanitized frame")) else none,
        record s { files = files },
      )

  -- The write and the fsync of WriteSanitizedFrame.
  unfoldable pub append_line : Str → JsonlSink → Answer
  unfolding sync_file
  append_line payload s = elim s.file [
    | none ↦ (some (failed (text "write sanitized frame")), s)
    | some h ↦
        let ((n, bad), files) = F.write h payload s.files in
        let written = record s { size = s.size + n; files = files } in
        if bad
        then (some (failed (text "write sanitized frame")), record s { files = files })
        else if s.opts.sync
        then sync_file h written
        else (none, written)
  ]

  -- WriteSanitizedFrame; `done` is whether the context has ended
  unfoldable pub write_sanitized_frame :
      (SanitizedFrame → Option Str) → Bool → Time → SanitizedFrame → JsonlSink → Answer
  write_sanitized_frame marshal done now frame s =
      if done then (some canceled, s) else elim (validate_sanitized_frame frame) [
        | some refusal ↦ (some refusal, s)
        | none ↦ elim (marshal frame) [
          | none ↦ (some (failed (text "marshal sanitized frame")), s)
          | some line ↦
              let payload = line ++ newline ∷ [] in
              proceed (ensure_writer (length payload) now s) (append_line payload)
        ]
      ]

  -- NewJSONLSinkWithOptions, after MkdirAll, which says whether it failed
  unfoldable pub new_jsonl_sink_with_options :
      Bool → Str → JsonlOptions → F.State → Option JsonlSink
  new_jsonl_sink_with_options unmade path opts files =
      if is_empty path || unmade || ltb_ℤ opts.max_bytes (pos 0)
      then none
      else some
          (record { path = path; opts = opts; file = none; size = 0; day = []; files = files })

  -- NewJSONLSink
  unfoldable pub new_jsonl_sink : Bool → Str → F.State → Option JsonlSink
  new_jsonl_sink unmade path files =
      new_jsonl_sink_with_options unmade path default_jsonl_options files
