-- ===== src/Sanitize/Process.antt =====
-- server/internal/sanitize/sanitize.go: the pipeline.
pub mod Decisions
pub mod Sensitive
use golem_harness.Base.{
  ℕ, Str, text, is_empty, Bool, true, false, ◌||◌, ◌&&◌, not, Option, none, some, List, [], ◌∷◌,
  ◌++◌, if◌then◌else◌,
}
use golem_harness.Base.Dict.{Dict, lookup, insert}
use golem_harness.Clock.{Time}
use golem_harness.Platform.{Platform}
use golem_harness.Strings.{trim_space, contains}
use golem_harness.Trajectory.{
  Decision, accept, drop, quarantine, DeviceMetadata, DecisionMetadata, ScreenshotRef, RedactionBox,
  SanitizerMetadata, SignatureMetadata, RedactionReport, RawFrame, SanitizedFrame, SanitizedNode,
}
use golem_harness.Sanitize.Unique.{unique}
use golem_harness.Sanitize.Redactor.{
  Pattern, Ner, conservative_ner, Redactor, new_text_redactor, rules, node,
}
use golem_harness.Sanitize.Outcomes.{
  default_version, VisionRedactor, noop_vision_redactor, Pipeline, Outcome,
  default_sensitive_packages, add_allowed, add_sensitive, new_pipeline, empty_report, dropped_as,
  quarantined_as, or_else, with_defaults, report_of, screenshot_with, final_report, sanitized_frame,
  accepted_as,
}

-- What Process returns: a result, and whether the error ErrSanitizerFailed comes with it.
pub record Processed : Type 0 where
  pub outcome : Outcome
  pub failed : Bool

module _ (matches : Pattern → Str → Bool) (P : Platform) where
  -- Process, from the vision redactor on; `clock` is what time.Now gives.
  finish : Time → Pipeline → Ner → VisionRedactor → RawFrame → SanitizedNode → Redactor → Processed
  finish clock p ner vision frame root r =
      let report = report_of r frame in
      elim (vision frame.screenshot_ref) [
        | none ↦ record {
          outcome = dropped_as p report (text "vision_redaction_error");
          failed = true;
        }
        | some boxes ↦
            let final = final_report report in
            let out =
              sanitized_frame p.version frame root (screenshot_with boxes frame.screenshot_ref)
                final (or_else p.now clock) in
            record { outcome = accepted_as p out final; failed = false }
      ]

  -- Process, for a package that is allowed.
  redact : Time → Pipeline → Ner → VisionRedactor → RawFrame → Processed
  redact clock p ner vision frame =
      elim (node matches P ner frame.ui_root (text "ui_root") new_text_redactor) [
        | none ↦ record {
          outcome = dropped_as p empty_report (text "sanitizer_error");
          failed = true;
        }
        | some (root, r) ↦ finish clock p ner vision frame root r
      ]

  -- Process, with its defaults in place.
  unfoldable pub process_with : Time → Pipeline → Ner → VisionRedactor → RawFrame → Processed
  unfolding redact finish
  process_with clock p ner vision frame =
      let app = trim_space frame.foreground_app.package_name in
      if is_empty app
      then record {
        outcome = dropped_as p empty_report (text "missing_foreground_package");
        failed = false;
      }
      else elim (lookup app p.sensitive_packages) [
        | some reason ↦ record {
          outcome = quarantined_as p empty_report (text "sensitive_package") reason;
          failed = false;
        }
        | none ↦
            if not (contains app p.allowed_packages)
            then record {
              outcome = dropped_as p empty_report (text "package_not_allowlisted");
              failed = false;
            }
            else redact clock p ner vision frame
      ]

  -- Process: the pipeline after the call, and what it returns
  unfoldable pub process : Time → Pipeline → RawFrame → Pipeline × Processed
  unfolding process_with
  process clock p frame =
      let p' = with_defaults p in
      (
        p',
        process_with clock p' (or_else p.ner conservative_ner)
            (or_else p.vision noop_vision_redactor) frame,
      )
