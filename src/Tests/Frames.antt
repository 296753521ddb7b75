-- ===== src/Tests/Frames.antt =====
-- Test data: frames of two apps, and a pattern that looks for an `@`.
use golem_harness.Base.{◌≡◌, refl, str_eq}
use golem_harness.Base.Dict.{lookup, insert}
use golem_harness.Strings.{trim_space, contains}
use golem_harness.Trajectory.{accept}
use golem_harness.Sanitize.Redactor.{
  sanitize_attributes, has_regex_pii, match_loop, sanitize_text, node,
}
use golem_harness.Sanitize.Process.{process}
use golem_harness.Sanitize.Outcomes.{
  default_sensitive_packages, add_sensitive, add_allowed, with_defaults, accepted_as,
}
use golem_harness.Tests.Toy.{toy}
use golem_harness.Base.{Str, text, Bool, true, false, ◌||◌, ◌==◌, [], ◌∷◌}
use golem_harness.Base.Int.{pos}
use golem_harness.Trajectory.{
  Bounds, RawNode, RawChildren, raw_node, RawFrame, hashed, other, SanitizedFrame, sanitized_node,
  SanitizedChildren, RedactionStatus,
}
use golem_harness.Sanitize.Redactor.{Pattern, email}
use golem_harness.Sanitize.Outcomes.{Pipeline, new_pipeline}

abbrev at_sign : Str → Bool
at_sign [] = false
at_sign (c ∷ s) = c == 64 || at_sign s

-- An email is a text with an `@`; nothing matches the other patterns.
abbrev pub has_at : Pattern → Str → Bool
has_at email s = at_sign s
has_at _ s = false

abbrev pub no_bounds : Bounds
no_bounds = record { left = pos 0; top = pos 0; right = pos 0; bottom = pos 0 }

abbrev pub raw_text : Str → RawNode
raw_text words =
    raw_node
      (record {
        stable_node_id = text "n1";
        bounds = no_bounds;
        class_name = text "TextView";
        package_name = [];
        resource_id_hash = [];
        raw_text = words;
        text_hash = [];
        text_redaction_status = [];
        raw_content_description = [];
        content_description_hash = [];
        content_description_redaction_status = [];
        clickable = true;
        enabled = true;
        focused = false;
        selected = false;
        checkable = false;
      })
      RawChildren.nil

-- A frame of an app whose screen has one text.
abbrev pub frame : Str → Str → RawFrame
frame app words = record {
  protocol_version = [];
  trajectory_id = text "t1";
  frame_id = text "f1";
  sequence = 7;
  event_timestamp = pos 5;
  device = record {
    device_id = text "d1";
    android_sdk_version = [];
    build_fingerprint_hash = [];
    build_metadata_redaction_status = [];
  };
  foreground_app = record { package_name = app; activity_name = [] };
  ui_root = raw_text words;
  intent = record {
    operator_intent_id = [];
    intent_type = [];
    tags = [];
    natural_language_hash = [];
    natural_language_redaction_status = hashed;
  };
  action = record {
    action_id = [];
    action_type = [];
    target_stable_node_id = [];
    target_bounds = no_bounds;
    deterministic = true;
    preconditions = [];
  };
  ui_settle = record { observed = true; settle_timeout_ms = 0; elapsed_ms = 0; settle_status = [] };
  screenshot_ref = record {
    reference_id = [];
    sha256_hex = [];
    media_type = [];
    redaction_status = [];
    redaction_boxes = [];
  };
  signature = record {
    signature_alg = [];
    key_id = [];
    payload_sha256_hex = [];
    verification_status = [];
  };
  pre_storage_raw = [];
}

abbrev pub calculator : RawFrame
calculator = frame (text "com.calc") (text "Total 12")

abbrev pub bank : RawFrame
bank = frame (text "com.example.bank") (text "Balance")

abbrev pub pipeline : Pipeline
pipeline = new_pipeline (text "com.calc" ∷ []) (text " org.chat " ∷ [])

-- Go's zero frame.
abbrev pub zero_frame : SanitizedFrame
zero_frame = record {
  protocol_version = [];
  trajectory_id = [];
  frame_id = [];
  sequence = 0;
  event_timestamp = pos 0;
  device = record {
    device_id = [];
    android_sdk_version = [];
    build_fingerprint_hash = [];
    build_metadata_redaction_status = [];
  };
  foreground_app = record { package_name = []; activity_name = [] };
  allowlist = record { decision = other []; reason_codes = []; kill_switch_reason = [] };
  ui_root =
      sanitized_node
        (record {
          stable_node_id = [];
          bounds = no_bounds;
          class_name = [];
          package_name = [];
          resource_id_hash = [];
          text_hash = [];
          text_redaction_status = RedactionStatus.other [];
          content_description_hash = [];
          content_description_redaction_status = RedactionStatus.other [];
          clickable = false;
          enabled = false;
          focused = false;
          selected = false;
          checkable = false;
        })
        SanitizedChildren.nil;
  intent = record {
    operator_intent_id = [];
    intent_type = [];
    tags = [];
    natural_language_hash = [];
    natural_language_redaction_status = RedactionStatus.other [];
  };
  action = record {
    action_id = [];
    action_type = [];
    target_stable_node_id = [];
    target_bounds = no_bounds;
    deterministic = false;
    preconditions = [];
  };
  ui_settle = record {
    observed = false;
    settle_timeout_ms = 0;
    elapsed_ms = 0;
    settle_status = [];
  };
  screenshot_ref = record {
    reference_id = [];
    sha256_hex = [];
    media_type = [];
    redaction_status = [];
    redaction_boxes = [];
  };
  sanitizer = record {
    sanitizer_version = [];
    decision = other [];
    redaction_rules_applied = [];
    fields_dropped = [];
    reason_codes = [];
    kill_switch_reason = [];
  };
  signature = record {
    signature_alg = [];
    key_id = [];
    payload_sha256_hex = [];
    verification_status = [];
  };
  sanitized_at = pos 0;
}

pub calculator_accepted :
    (process has_at toy (pos 9) pipeline calculator).1.outcome.decision ≡ accept
unfolding process trim_space text lookup with_defaults new_pipeline add_sensitive insert
    default_sensitive_packages str_eq contains add_allowed node sanitize_attributes sanitize_text
    has_regex_pii match_loop accepted_as
calculator_accepted = refl
