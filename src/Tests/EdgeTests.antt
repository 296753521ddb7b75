-- ===== src/Tests/EdgeTests.antt =====
-- The configuration, the client and the storage on concrete data.
use golem_harness.Base.{
  ℕ, ◌+◌, Str, text, str_eq, ◌≡◌, refl, true, false, Option, none, some, [], ◌∷◌, ◌++◌,
}
use golem_harness.Base.Int.{ℤ, pos}
use golem_harness.Errors.{ok}
use golem_harness.Signing.{
  SignedEnvelope, sign_envelope, canonical_bytes, layout, hash_payload, signature_alg_ed25519,
}
use golem_harness.Signing.Proto.{Timestamps}
use golem_harness.Platform.{hex_encode}
use golem_harness.Trajectory.{RawFrame, accept}
use golem_harness.Ingest.Calls.{Reply, response}
use golem_harness.Config.{Config, validate, auth_devices, auth_device, devices_require_client_cert}
use golem_harness.Config.Usable.{IsUsable, validate-IsUsable}
use golem_harness.Client.{client_ingest_frame, build_signed_envelope_with_key, envelope_of}
use golem_harness.Client.Wire.{seen_of, client_ingest_frame_exact}
use golem_harness.Tests.Toy.{toy, repeated, checksum}
use golem_harness.Tests.Envelopes.{key, signed}
use golem_harness.Tests.Frames.{calculator}

-- A decoder for a text of 32 letters.
abbrev as_bytes : Str → Option Str
as_bytes s = some s

abbrev beside : Str → Str
beside path = path ++ text ".replay"

abbrev config : Config
config = record {
  grpc_addr = text ":1";
  http_addr = text ":2";
  storage_path = text "out";
  replay_path = [];
  storage_rotate_max_bytes = pos 0;
  storage_rotate_daily = false;
  storage_fsync = none;
  max_payload_bytes = pos 0;
  signature_ttl_seconds = pos 60;
  allowed_packages = text "com.calc" ∷ [];
  sensitive_packages = [];
  allowed_devices =
      record {
        device_id = text "d1";
        ed25519_public_key_base64 = repeated 32 7;
        public_key_id = [];
        client_cert_fingerprint_sha256 = text "aa";
      }
      ∷ [];
  mtls = record {
    enabled = true;
    cert_file = text "c";
    key_file = text "k";
    client_ca_file = text "a";
    require_client = false;
  };
}

abbrev validated : Config
validated = record config {
  replay_path = beside (text "out");
  max_payload_bytes = pos 65_536;
  mtls = record config.mtls { require_client = true };
}

config-validated : validate as_bytes beside config ≡ ok validated
unfolding validate auth_devices auth_device devices_require_client_cert text
config-validated = refl

validate-IsUsable_example : IsUsable as_bytes beside validated
validate-IsUsable_example = validate-IsUsable as_bytes beside config validated config-validated

abbrev pub exact_times : Timestamps
exact_times = record { Timestamp = ℤ; new = λ t. t; as_time = λ t. t }

-- A service that counts its calls and accepts.
abbrev counting : SignedEnvelope → ℕ → Reply × ℕ
counting e n = (
  response (record {
    request_id = e.frame_id;
    decision = accept;
    reason_codes = [];
    sanitizer_version = [];
  }),
  n + 1,
)

client_ingest_frame_exact_example :
    client_ingest_frame exact_times counting (some signed) (some 4)
    ≡ (seen_of (counting signed 4).0, some 5)
client_ingest_frame_exact_example =
    client_ingest_frame_exact exact_times counting signed 4 refl refl

abbrev pub marshal : RawFrame → Option Str
marshal frame = some (text "{}")

abbrev pub named : RawFrame
named = record calculator { protocol_version = text "v1" }

abbrev pub unmarshal : Str → Option RawFrame
unmarshal s = some named

abbrev ready_to_sign : SignedEnvelope
ready_to_sign = record (envelope_of toy marshal (pos 5) named [] [] (text "{}")) {
  payload_sha256_hex = hash_payload toy (text "{}");
}

abbrev pub built : SignedEnvelope
built = record ready_to_sign {
  detached_signature = repeated 32 7 ++ checksum (layout toy ready_to_sign);
}

pub named-built : build_signed_envelope_with_key toy marshal key (pos 5) named [] [] ≡ ok built
unfolding build_signed_envelope_with_key sign_envelope canonical_bytes signature_alg_ed25519
    hash_payload str_eq hex_encode text
named-built = refl
