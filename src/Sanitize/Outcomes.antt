-- ===== src/Sanitize/Outcomes.antt =====
-- server/internal/sanitize/sanitize.go: the pipeline's configuration, and the results that Process
-- builds.
use golem_harness.Base.{
  Str, text, is_empty, ◌||◌, ◌&&◌, not, Option, none, some, List, [], ◌∷◌, ◌++◌, if◌then◌else◌,
}
use golem_harness.Base.Dict.{Dict, insert}
use golem_harness.Clock.{Time}
use golem_harness.Strings.{trim_space, contains}
use golem_harness.Trajectory.{
  Decision, accept, drop, quarantine, ScreenshotRef, RedactionBox, RedactionReport, RawFrame,
  SanitizedFrame, SanitizedNode,
}
use golem_harness.Sanitize.Unique.{unique}
use golem_harness.Sanitize.Redactor.{Ner, conservative_ner, Redactor, rules}

-- DefaultVersion
unfoldable pub default_version : Str
unfolding text
default_version = text "sanitize-v0.1.0"

-- interface VisionRedactor; `none` is its error
abbrev pub VisionRedactor : Type 0
VisionRedactor = ScreenshotRef → Option (List RedactionBox)

-- NoopVisionRedactor
abbrev pub noop_vision_redactor : VisionRedactor
noop_vision_redactor _ = some []

-- type Pipeline; a nil NER, vision redactor or clock is `none`
pub record Pipeline : Type 0 where
  pub allowed_packages : List Str
  pub sensitive_packages : Dict Str
  pub version : Str
  pub ner : Option Ner
  pub vision : Option VisionRedactor
  pub now : Option Time

-- type Result; the zero frame is `none`
pub record Outcome : Type 0 where
  pub frame : Option SanitizedFrame
  pub report : RedactionReport
  pub decision : Decision
  pub reason_codes : List Str
  pub sanitizer_version : Str
  pub kill_switch_reason : Str

-- defaultSensitivePackages
unfoldable pub default_sensitive_packages : Dict Str
unfolding text
default_sensitive_packages =
    (text "com.example.bank", text "banking_app")
    ∷ (text "com.example.passwordmanager", text "password_manager")
    ∷ (text "com.example.medical", text "medical_app")
    ∷ (text "com.google.android.gm", text "email_app")
    ∷ (text "com.whatsapp", text "private_messaging_app")
    ∷ (text "org.signal", text "private_messaging_app")
    ∷ []

-- The loops of NewPipeline.
unfoldable pub add_allowed : List Str → List Str → List Str
add_allowed [] set = set
add_allowed (app ∷ rest) set =
    let p = trim_space app in
    add_allowed rest (if is_empty p || contains p set then set else set ++ p ∷ [])

unfoldable pub add_sensitive : List Str → Dict Str → Dict Str
add_sensitive [] table = table
add_sensitive (app ∷ rest) table =
    let p = trim_space app in
    add_sensitive rest
      (if is_empty p then table else insert p (text "configured_sensitive_package") table)

-- NewPipeline
unfoldable pub new_pipeline : List Str → List Str → Pipeline
new_pipeline allowed sensitive = record {
  allowed_packages = add_allowed allowed [];
  sensitive_packages = add_sensitive sensitive default_sensitive_packages;
  version = default_version;
  ner = some conservative_ner;
  vision = some noop_vision_redactor;
  now = none;
}

abbrev pub empty_report : RedactionReport
empty_report = record { rules_applied = []; fields_dropped = []; reason_codes = [] }

-- drop, quarantine, with the report that every call of them is given
unfoldable pub dropped_as : Pipeline → RedactionReport → Str → Outcome
dropped_as p report reason =
    let codes = unique (report.reason_codes ++ reason ∷ []) in
    record {
      frame = none;
      report = record report { reason_codes = codes };
      decision = drop;
      reason_codes = codes;
      sanitizer_version = p.version;
      kill_switch_reason = [];
    }

unfoldable pub quarantined_as : Pipeline → RedactionReport → Str → Str → Outcome
quarantined_as p report reason kill_switch =
    let codes = unique (report.reason_codes ++ reason ∷ []) in
    record {
      frame = none;
      report = record report { reason_codes = codes };
      decision = quarantine;
      reason_codes = codes;
      sanitizer_version = p.version;
      kill_switch_reason = kill_switch;
    }

abbrev pub or_else {ℓ} : {A : Type ℓ} → Option A → A → A
or_else none b = b
or_else (some a) b = a

-- The defaults that Process puts into the pipeline.
unfoldable pub with_defaults : Pipeline → Pipeline
with_defaults p = record p {
  version = if is_empty p.version then default_version else p.version;
  ner = some (or_else p.ner conservative_ner);
  vision = some (or_else p.vision noop_vision_redactor);
}

-- The report of the redactor's run over the frame.
unfoldable pub report_of : Redactor → RawFrame → RedactionReport
report_of r frame = record {
  rules_applied = rules r ++ text "structural_attrition" ∷ [];
  fields_dropped = elim frame.pre_storage_raw [
    | [] ↦ r.fields_dropped
    | entry ∷ more ↦ r.fields_dropped ++ text "pre_storage_raw_fields" ∷ []
  ];
  reason_codes = r.reason_codes;
}

unfoldable pub screenshot_with : List RedactionBox → ScreenshotRef → ScreenshotRef
screenshot_with boxes s = record s {
  redaction_boxes = boxes;
  redaction_status =
      if not (is_empty s.reference_id) && is_empty s.redaction_status
      then text "metadata_only_no_raw_bytes"
      else s.redaction_status;
}

-- The report of an accepted frame, without repetitions and in order.
unfoldable pub final_report : RedactionReport → RedactionReport
final_report report = record {
  rules_applied = unique report.rules_applied;
  fields_dropped = unique report.fields_dropped;
  reason_codes = unique (report.reason_codes ++ text "sanitized" ∷ []);
}

unfoldable pub sanitized_frame :
    Str → RawFrame → SanitizedNode → ScreenshotRef → RedactionReport → Time → SanitizedFrame
sanitized_frame version frame root screenshot report now = record {
  protocol_version = frame.protocol_version;
  trajectory_id = frame.trajectory_id;
  frame_id = frame.frame_id;
  sequence = frame.sequence;
  event_timestamp = frame.event_timestamp;
  device = record {
    device_id = frame.device.device_id;
    android_sdk_version = frame.device.android_sdk_version;
    build_fingerprint_hash = frame.device.build_fingerprint_hash;
    build_metadata_redaction_status = frame.device.build_metadata_redaction_status;
  };
  foreground_app = frame.foreground_app;
  allowlist = record {
    decision = accept;
    reason_codes = text "package_allowlisted" ∷ [];
    kill_switch_reason = [];
  };
  ui_root = root;
  intent = frame.intent;
  action = frame.action;
  ui_settle = frame.ui_settle;
  screenshot_ref = screenshot;
  sanitizer = record {
    sanitizer_version = version;
    decision = accept;
    redaction_rules_applied = report.rules_applied;
    fields_dropped = report.fields_dropped;
    reason_codes = report.reason_codes;
    kill_switch_reason = [];
  };
  signature = record {
    signature_alg = frame.signature.signature_alg;
    key_id = frame.signature.key_id;
    payload_sha256_hex = frame.signature.payload_sha256_hex;
    verification_status = text "verified";
  };
  sanitized_at = now;
}

unfoldable pub accepted_as : Pipeline → SanitizedFrame → RedactionReport → Outcome
accepted_as p frame report = record {
  frame = some frame;
  report = report;
  decision = accept;
  reason_codes = report.reason_codes;
  sanitizer_version = p.version;
  kill_switch_reason = [];
}
