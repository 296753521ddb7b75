-- ===== src/Trajectory.antt =====
-- server/pkg/trajectory/types.go: raw and sanitized frames.
use golem_harness.Base.{ℕ, Str, Bool, List}
use golem_harness.Base.Int.{ℤ}
use golem_harness.Base.Dict.{Dict}
use golem_harness.Clock.{Time}

-- type Decision string: the three constants, and any other text
pub data Decision : Type 0 where
  accept drop quarantine : Decision
  other : Str → Decision

-- type RedactionStatus string, likewise
pub data RedactionStatus : Type 0 where
  not_present hashed redacted dropped : RedactionStatus
  other : Str → RedactionStatus

pub record DeviceMetadata : Type 0 where
  pub device_id : Str
  pub android_sdk_version : Str
  pub build_fingerprint_hash : Str
  pub build_metadata_redaction_status : Str

pub record ForegroundApp : Type 0 where
  pub package_name : Str
  pub activity_name : Str

pub record DecisionMetadata : Type 0 where
  pub decision : Decision
  pub reason_codes : List Str
  pub kill_switch_reason : Str

-- The coordinates are int32.
pub record Bounds : Type 0 where
  pub left : ℤ
  pub top : ℤ
  pub right : ℤ
  pub bottom : ℤ

-- The fields of RawNode other than its children.
pub record RawAttributes : Type 0 where
  pub stable_node_id : Str
  pub bounds : Bounds
  pub class_name : Str
  pub package_name : Str
  pub resource_id_hash : Str
  pub raw_text : Str
  pub text_hash : Str
  pub text_redaction_status : Str
  pub raw_content_description : Str
  pub content_description_hash : Str
  pub content_description_redaction_status : Str
  pub clickable : Bool
  pub enabled : Bool
  pub focused : Bool
  pub selected : Bool
  pub checkable : Bool

-- The fields of SanitizedNode other than its children.
pub record SanitizedAttributes : Type 0 where
  pub stable_node_id : Str
  pub bounds : Bounds
  pub class_name : Str
  pub package_name : Str
  pub resource_id_hash : Str
  pub text_hash : Str
  pub text_redaction_status : RedactionStatus
  pub content_description_hash : Str
  pub content_description_redaction_status : RedactionStatus
  pub clickable : Bool
  pub enabled : Bool
  pub focused : Bool
  pub selected : Bool
  pub checkable : Bool

-- A node with its children. The list of children is a type of the block.
mutual
  pub data RawNode : Type 0 where
    raw_node : RawAttributes → RawChildren → RawNode

  pub data RawChildren : Type 0 where
    nil : RawChildren
    cons : RawNode → RawChildren → RawChildren

mutual
  pub data SanitizedNode : Type 0 where
    sanitized_node : SanitizedAttributes → SanitizedChildren → SanitizedNode

  pub data SanitizedChildren : Type 0 where
    nil : SanitizedChildren
    cons : SanitizedNode → SanitizedChildren → SanitizedChildren

pub record IntentMetadata : Type 0 where
  pub operator_intent_id : Str
  pub intent_type : Str
  pub tags : List Str
  pub natural_language_hash : Str
  pub natural_language_redaction_status : RedactionStatus

pub record ActionMetadata : Type 0 where
  pub action_id : Str
  pub action_type : Str
  pub target_stable_node_id : Str
  pub target_bounds : Bounds
  pub deterministic : Bool
  pub preconditions : List Str

pub record UiSettleMetadata : Type 0 where
  pub observed : Bool
  pub settle_timeout_ms : ℕ
  pub elapsed_ms : ℕ
  pub settle_status : Str

pub record RedactionBox : Type 0 where
  pub bounds : Bounds
  pub reason_code : Str

pub record ScreenshotRef : Type 0 where
  pub reference_id : Str
  pub sha256_hex : Str
  pub media_type : Str
  pub redaction_status : Str
  pub redaction_boxes : List RedactionBox

pub record SanitizerMetadata : Type 0 where
  pub sanitizer_version : Str
  pub decision : Decision
  pub redaction_rules_applied : List Str
  pub fields_dropped : List Str
  pub reason_codes : List Str
  pub kill_switch_reason : Str

pub record SignatureMetadata : Type 0 where
  pub signature_alg : Str
  pub key_id : Str
  pub payload_sha256_hex : Str
  pub verification_status : Str

pub record RedactionReport : Type 0 where
  pub rules_applied : List Str
  pub fields_dropped : List Str
  pub reason_codes : List Str

pub record RawFrame : Type 0 where
  pub protocol_version : Str
  pub trajectory_id : Str
  pub frame_id : Str
  pub sequence : ℕ
  pub event_timestamp : Time
  pub device : DeviceMetadata
  pub foreground_app : ForegroundApp
  pub ui_root : RawNode
  pub intent : IntentMetadata
  pub action : ActionMetadata
  pub ui_settle : UiSettleMetadata
  pub screenshot_ref : ScreenshotRef
  pub signature : SignatureMetadata
  pub pre_storage_raw : Dict Str

pub record SanitizedFrame : Type 0 where
  pub protocol_version : Str
  pub trajectory_id : Str
  pub frame_id : Str
  pub sequence : ℕ
  pub event_timestamp : Time
  pub device : DeviceMetadata
  pub foreground_app : ForegroundApp
  pub allowlist : DecisionMetadata
  pub ui_root : SanitizedNode
  pub intent : IntentMetadata
  pub action : ActionMetadata
  pub ui_settle : UiSettleMetadata
  pub screenshot_ref : ScreenshotRef
  pub sanitizer : SanitizerMetadata
  pub signature : SignatureMetadata
  pub sanitized_at : Time
