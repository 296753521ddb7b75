-- ===== src/MockClient.antt =====
-- mock-client/main.go: a device that keeps a key in a file and sends two frames. The files, the random
-- bytes, base64, encoding/json and the connection are parameters.
pub mod Keys
pub mod Ready
pub mod Sending
use golem_harness.Base.{
  ℕ, ◌+◌, ◌*◌, ◌-◌, ◌%◌, ◌^◌, suc, Str, text, Bool, true, false, not, Option, none, some, [], ◌∷◌,
  ◌++◌, length, ◌==◌, if◌then◌else◌,
}
use golem_harness.Base.Int.{ℤ, pos, negsuc, ◌-ℤ◌}
use golem_harness.Clock.{Time, second}
use golem_harness.Decimal.{decimal}
use golem_harness.Errors.{plain, Result, ok, err}
use golem_harness.Platform.{Platform, private_key_size, hex_encode}
use golem_harness.Trajectory.{
  Bounds, DeviceMetadata, RawAttributes, RawNode, RawChildren, raw_node, RedactionStatus, RawFrame,
}
use golem_harness.Signing.{SignedEnvelope}
use golem_harness.Signing.Proto.{Timestamps}
use golem_harness.Ingest.Calls.{Reply, Response}
use golem_harness.Client.{
  build_signed_envelope_with_key, client_ingest_frame, ClientReply, answered, refused, no_envelope,
  no_reply,
}

-- os.ReadFile: the contents, os.ErrNotExist, or another error
pub data Contents : Type 0 where
  contents : Str → Contents
  not_exist unreadable : Contents

-- The directory of the key, ed25519.GenerateKey and base64.StdEncoding. A Boolean answer says
-- whether there was an error.
pub record KeyFiles : Type 1 where
  pub State : Type 0
  pub mkdir_all : Str → State → Bool × State
  pub read_file : Str → State → Contents
  pub write_file : Str → Str → State → Bool × State
  pub generate_key : State → Option Str × State
  pub encode_base64 : Str → Str
  pub decode_base64 : Str → Option Str
  -- filepath.Join(dir, "device_ed25519_private.base64")
  pub private_path : Str → Str

module _ (P : Platform) (F : KeyFiles) where
  abbrev pub KeyAnswer : Type 0
  KeyAnswer = Result (Str × Str) × F.State

  -- The key in a file that was read. The public key of a private one is always an Ed25519 key.
  unfoldable pub parse_key : Str → Result (Str × Str)
  parse_key data' = elim (F.decode_base64 data') [
    | none ↦ err (plain (text "decode key"))
    | some raw ↦
        if not (length raw == private_key_size)
        then err (plain (text "stored private key has invalid length"))
        else ok (P.public raw, raw)
  ]

  unfoldable pub create_key : Str → F.State → KeyAnswer
  create_key path s =
      let (made, s') = F.generate_key s in
      elim made [
        | none ↦ (err (plain (text "generate key")), s')
        | some key ↦
            let (bad, s'') = F.write_file path (F.encode_base64 key) s' in
            (if bad then err (plain (text "write key")) else ok (P.public key, key), s'')
      ]

  -- loadOrCreateKeypair: the public and the private key
  unfoldable pub load_or_create_keypair : Str → F.State → KeyAnswer
  load_or_create_keypair dir s =
      let (bad, s') = F.mkdir_all dir s in
      if bad
      then (err (plain (text "create key directory")), s')
      else elim (F.read_file (F.private_path dir) s') [
        | contents data' ↦ (parse_key data', s')
        | not_exist ↦ create_key (F.private_path dir) s'
        | unreadable ↦ (err (plain (text "read key")), s')
      ]

-- t.UnixNano(), where it is an int64, and its conversion to uint64
unfoldable pub unix_nano : Time → ℤ
unix_nano t = t -ℤ pos (62_135_596_800 * second)

abbrev pub to_uint64 : ℤ → ℕ
to_uint64 (pos n) = n % 2 ^ 64
to_uint64 (negsuc n) = (2 ^ 64 - 1 - n % 2 ^ 64) % 2 ^ 64

-- %d
abbrev pub signed_decimal : ℤ → Str
signed_decimal (pos n) = decimal n
signed_decimal (negsuc n) = 45 ∷ decimal (suc n)

-- newTrajectoryID, over the eight random bytes, if they could be read
unfoldable pub new_trajectory_id : Option Str → Time → Option Str
new_trajectory_id none now = none
new_trajectory_id (some b) now =
    some (text "mock-trajectory-" ++ (signed_decimal (unix_nano now) ++ (text "-" ++ hex_encode b)))

abbrev zero_bounds : Bounds
zero_bounds = record { left = pos 0; top = pos 0; right = pos 0; bottom = pos 0 }

-- The fields that both nodes of the frame set; the others are Go's zero values.
abbrev node_with : Str → Str → Str → Str → Str → Bool → RawAttributes
node_with id class_name app resource words clickable = record {
  stable_node_id = id;
  bounds = zero_bounds;
  class_name = class_name;
  package_name = app;
  resource_id_hash = resource;
  raw_text = words;
  text_hash = [];
  text_redaction_status = [];
  raw_content_description = [];
  content_description_hash = [];
  content_description_redaction_status = [];
  clickable = clickable;
  enabled = true;
  focused = false;
  selected = false;
  checkable = false;
}

-- syntheticFrame
unfoldable pub synthetic_frame : Time → Str → Str → ℕ → Str → RawFrame
unfolding text
synthetic_frame now trajectory_id frame_id sequence app = record {
  protocol_version = text "golem.v1";
  trajectory_id = trajectory_id;
  frame_id = frame_id;
  sequence = sequence;
  event_timestamp = now;
  device = record {
    device_id = text "mock-device";
    android_sdk_version = text "35";
    build_fingerprint_hash = text "sha256:test-build";
    build_metadata_redaction_status = text "hashed";
  };
  foreground_app = record { package_name = app; activity_name = text "SyntheticActivity" };
  ui_root =
      raw_node
        (node_with (text "root") (text "android.widget.FrameLayout") app
          (text "sha256:synthetic-root") (text "Settings") false)
        (RawChildren.cons
          (raw_node
            (node_with (text "button-1") (text "android.widget.Button") app
              (text "sha256:synthetic-button") (text "Open Wi-Fi") true)
            RawChildren.nil)
          RawChildren.nil);
  intent = record {
    operator_intent_id = text "synthetic-intent";
    intent_type = text "open_settings";
    tags = text "synthetic" ∷ [];
    natural_language_hash = [];
    natural_language_redaction_status = RedactionStatus.other [];
  };
  action = record {
    action_id = text "synthetic-action";
    action_type = text "tap";
    target_stable_node_id = text "button-1";
    target_bounds = zero_bounds;
    deterministic = true;
    preconditions = [];
  };
  ui_settle = record {
    observed = true;
    settle_timeout_ms = 1000;
    elapsed_ms = 100;
    settle_status = text "settled";
  };
  screenshot_ref = record {
    reference_id = [];
    sha256_hex = [];
    media_type = [];
    redaction_status = [];
    redaction_boxes = [];
  };
  signature = record {
    signature_alg = [];
    key_id = [];
    payload_sha256_hex = [];
    verification_status = [];
  };
  pre_storage_raw = [];
}

-- What time.Now and rand.Read give in a run, in the order of the calls.
pub record Given : Type 0 where
  pub random : Option Str
  pub at_trajectory : Time
  pub at_sequence : Time
  pub at_allowed : Time
  pub signs_allowed : Time
  pub at_sensitive : Time
  pub signs_sensitive : Time

-- How a run ends: the decisions of both frames, or an error after some frames were answered.
pub data RunEnd : Type 0 where
  finished : Response → Response → RunEnd
  stopped : RunEnd

-- uint64(time.Now().UnixNano()), and seqBase+1
abbrev pub sequence_base : Given → ℕ
sequence_base now = to_uint64 (unix_nano now.at_sequence)

abbrev pub next_sequence : ℕ → ℕ
next_sequence n = (n + 1) % 2 ^ 64

-- The response of a call of IngestFrame that returned no error.
abbrev pub response_of : ClientReply → Option Response
response_of (answered r) = some r
response_of (refused status) = none
response_of no_envelope = none
response_of no_reply = none

module _ (P : Platform) (F : KeyFiles) (marshal : RawFrame → Option Str) (T : Timestamps)
    {State : Type 0} (ingest : SignedEnvelope → State → Reply × State) where
  -- One frame is built, signed and sent; `none` is an error. publicKeyID is `mock-key`.
  unfoldable pub send : Str → Time → RawFrame → Option State → Option Response × Option State
  send private_key signs frame s =
      elim (build_signed_envelope_with_key P marshal private_key signs frame (text "mock-key") []) [
        | err failed ↦ (none, s)
        | ok envelope ↦
            let (reply, s') = client_ingest_frame T ingest (some envelope) s in
            (response_of reply, s')
      ]

  abbrev pub allowed_frame : Given → Str → RawFrame
  allowed_frame now id =
      synthetic_frame now.at_allowed id (id ++ text "-allowed") (sequence_base now)
        (text "com.android.settings")

  abbrev pub sensitive_frame : Given → Str → RawFrame
  sensitive_frame now id =
      synthetic_frame now.at_sensitive id (id ++ text "-sensitive")
        (next_sequence (sequence_base now)) (text "com.example.bank")

  unfoldable pub send_sensitive :
      Given → Str → Str → Response → Option State → RunEnd × Option State
  send_sensitive now private_key id first s =
      let (reply, s') = send private_key now.signs_sensitive (sensitive_frame now id) s in
      (elim reply [ none ↦ stopped | some second' ↦ finished first second' ], s')

  unfoldable pub send_both : Given → Str → Str → Option State → RunEnd × Option State
  send_both now private_key id s =
      let (reply, s') = send private_key now.signs_allowed (allowed_frame now id) s in
      elim reply [ none ↦ (stopped, s') | some first ↦ send_sensitive now private_key id first s' ]

  -- run, over a connection to a server with this state
  unfoldable pub run : Given → Str → F.State → Option State → (RunEnd × F.State) × Option State
  run now key_dir files s =
      let (keys, files') = load_or_create_keypair P F key_dir files in
      elim keys [
        | err failed ↦ ((stopped, files'), s)
        | ok (_, private_key) ↦ elim (new_trajectory_id now.random now.at_trajectory) [
          | none ↦ ((stopped, files'), s)
          | some id ↦ let (end, s') = send_both now private_key id s in ((end, files'), s')
        ]
      ]
