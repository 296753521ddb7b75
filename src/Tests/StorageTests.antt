-- ===== src/Tests/StorageTests.antt =====
-- The sink over files that are a map from paths to contents, where nothing fails.
use golem_harness.Base.{
  Str, text, str_eq, ◌≡◌, ◌≢◌, refl, ◌⊎◌, true, false, Option, none, some, [], ◌∷◌, ◌++◌, length,
}
use golem_harness.Base.Int.{pos}
use golem_harness.Base.Dict.{Dict, lookup, insert}
use golem_harness.Trajectory.{SanitizedFrame, accept}
use golem_harness.Sanitize.Process.{process}
use golem_harness.Sanitize.Outcomes.{or_else, new_pipeline}
use golem_harness.Sanitize.Process.Decisions.{frame_of_accept}
use golem_harness.Storage.{
  JsonlSink, rotate_path, write_sanitized_frame, ensure_writer, rotate_open, rotate_found, reopen,
  rotate, close_file, rename_free, rename_to, close, new_jsonl_sink, new_jsonl_sink_with_options,
  open_file, append_line,
}
use golem_harness.Storage.Paths.{
  Files, Stat, missing, found, Names, default_jsonl_options, validate_sanitized_frame, rotated_path,
  archive_stamp, trim_suffix,
}
use golem_harness.Storage.Limits.{IsReady, ensure_writer-IsReady}
use golem_harness.Storage.Lives.{IsTidy, made, wrote, closed, used-IsTidy}
use golem_harness.Storage.Rotation.{IsArchived, rotate_path-IsArchived}
use golem_harness.Storage.Writing.{validate-process, IsAppended, write_sanitized_frame-IsAppended}
use golem_harness.Tests.Toy.{toy}
use golem_harness.Tests.Frames.{has_at, calculator, pipeline, zero_frame, calculator_accepted}

abbrev stat_of : Option Str → Stat
stat_of none = missing
stat_of (some contents) = found (length contents) (pos 5)

abbrev contents_of : Option Str → Str
contents_of none = []
contents_of (some contents) = contents

-- A rename leaves the old name with an empty file.
abbrev pub disk : Files
disk = record {
  State = Dict Str;
  Handle = Str;
  stat = λ path m. stat_of (lookup path m);
  rename = λ path dest m. (false, insert path [] (insert dest (contents_of (lookup path m)) m));
  open_append = λ path m. (some path, insert path (contents_of (lookup path m)) m);
  file_size = λ path m. some (length (contents_of (lookup path m)));
  write = λ path s m. ((length s, false), insert path (contents_of (lookup path m) ++ s) m);
  sync = λ path m. (false, m);
  close = λ path m. (false, m);
}

abbrev pub names : Names
names = record {
  dir = λ path. text "d";
  base = λ path. path;
  ext = λ path. [];
  join = λ a b. a ++ (text "/" ++ b);
  day_of = λ t. text "day";
  stamp_of = λ t. text "now";
}

abbrev pub sink : JsonlSink disk names
sink = record {
  path = text "out";
  opts = default_jsonl_options;
  file = none;
  size = 0;
  day = [];
  files = (text "out", text "old") ∷ [];
}

abbrev safe_frame : SanitizedFrame
safe_frame = record zero_frame {
  sanitizer = record zero_frame.sanitizer { sanitizer_version = text "v"; decision = accept };
  sanitized_at = pos 9;
}

abbrev pub encoded : SanitizedFrame → Option Str
encoded frame = some (text "{}")

written : (write_sanitized_frame disk names encoded false (pos 9) safe_frame sink).0 ≡ none
unfolding write_sanitized_frame ensure_writer rotate_open reopen open_file append_line
    validate_sanitized_frame lookup insert str_eq text rotate_found
written = refl

write_sanitized_frame-IsAppended_example :
    IsAppended disk names encoded
      (pos 9)
      safe_frame
      sink
      (write_sanitized_frame disk names encoded false (pos 9) safe_frame sink).1
write_sanitized_frame-IsAppended_example =
    write_sanitized_frame-IsAppended disk names encoded false (pos 9) safe_frame sink written

rotate_path-IsArchived_example :
    ((rotate_path disk names (text "now") sink).1.files ≡ sink.files)
    ⊎ IsArchived disk names sink
        (rotated_path names (text "out") (text "now"))
        (rotate_path disk names (text "now") sink).1.files
rotate_path-IsArchived_example = rotate_path-IsArchived disk names (text "now") sink

-- The file has eight bytes and may have ten.
abbrev nearly_full : JsonlSink disk names
nearly_full = record sink {
  opts = record { max_bytes = pos 10; rotate_daily = true; sync = true };
  file = some (text "out");
  size = 8;
  day = text "day";
  files = (text "out", text "12345678") ∷ [];
}

room_made : (ensure_writer disk names 5 (pos 9) nearly_full).0 ≡ none
unfolding ensure_writer rotate_open rotate close_file rotate_path rename_free rename_to reopen
    rotate_found open_file archive_stamp rotated_path trim_suffix lookup insert str_eq text
room_made = refl

ensure_writer-IsReady_example :
    IsReady disk names 5 (pos 9) nearly_full (ensure_writer disk names 5 (pos 9) nearly_full).1
ensure_writer-IsReady_example = ensure_writer-IsReady disk names 5 (pos 9) nearly_full room_made

abbrev nothing_yet : JsonlSink disk names
nothing_yet = record sink { files = [] }

sink_made : new_jsonl_sink disk names false (text "out") [] ≡ some nothing_yet
unfolding new_jsonl_sink new_jsonl_sink_with_options text
sink_made = refl

abbrev used : JsonlSink disk names
used =
    (close disk names
      (write_sanitized_frame disk names encoded false (pos 9) safe_frame nothing_yet).1).1

used-IsTidy_example : IsTidy disk names (text "out") default_jsonl_options used
unfolding new_jsonl_sink
used-IsTidy_example =
    used-IsTidy disk names (text "out") default_jsonl_options encoded false [] nothing_yet used
      sink_made (closed (wrote false (pos 9) safe_frame made))

abbrev delivered :
    (f : SanitizedFrame) × ((process has_at toy (pos 9) pipeline calculator).1.outcome.frame
      ≡ some f)
delivered = frame_of_accept has_at toy (pos 9) pipeline calculator calculator_accepted

nine : pos 9 ≢ pos 0
nine = λ e. cc

-- The pipeline of the configuration has no clock of its own.
no_clock : or_else pipeline.now (pos 9) ≢ pos 0
unfolding new_pipeline
no_clock = nine

validate-process_example : validate_sanitized_frame delivered.0 ≡ none
validate-process_example =
    validate-process has_at toy (pos 9) pipeline calculator delivered.0 no_clock delivered.1
