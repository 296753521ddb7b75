-- ===== src/Tests/MockClientTests.antt =====
-- The mock client against a service that knows its device.
use mathlib.Core.Path.{subst}
use golem_harness.Base.{
  ℕ, ◌+◌, ◌*◌, Str, text, str_eq, ◌≡◌, ◌≢◌, refl, sym, ap, ◌++◌, false, Option, none, some, [], ◌∷◌,
  length, ◌==◌, if◌then◌else◌,
}
use golem_harness.Base.Int.{pos}
use golem_harness.Clock.{Time, second}
use golem_harness.Errors.{ok}
use golem_harness.Platform.{Platform, private_key_size, hex_encode}
use golem_harness.Base.Dict.{lookup, insert}
use golem_harness.Base.Int.{◌+ℤ◌, ◌-ℤ◌}
use golem_harness.Clock.{sub}
use golem_harness.Decimal.{decimal, digit_loop}
use golem_harness.Signing.{
  signature_alg_ed25519, hash_payload, canonical_bytes, layout, sign_envelope,
}
use golem_harness.Signing.Proto.{
  envelope_from_proto, envelope_to_proto, decision_from_proto, decision_to_proto,
}
use golem_harness.Strings
use golem_harness.Strings.{trim_space}
use golem_harness.Sanitize.Redactor.{
  node, sanitize_attributes, sanitize_text, has_regex_pii, match_loop,
}
use golem_harness.Sanitize.Process.{process}
use golem_harness.Sanitize.Outcomes.{
  with_defaults, add_sensitive, add_allowed, default_sensitive_packages, accepted_as,
  quarantined_as, default_version,
}
use golem_harness.Ingest.{authorize, decode, sanitize, decide, store, ingest_frame}
use golem_harness.Ingest.Calls.{respond, peer_certificate_fingerprint}
use golem_harness.Ingest.Timed.{timed_ingest}
use golem_harness.Ingest.Bind.{bind_envelope_to_frame}
use golem_harness.Auth.{
  verify, authenticate, check_fields, check_time, check_hash, check_key_id, bind_client_cert,
  check_signature,
}
use golem_harness.Auth.Memory.{check_and_record, ensure, contains}
use golem_harness.Client.{
  build_signed_envelope_with_key, client_ingest_frame, grpc_ingest_frame, response_from_proto,
  response_to_proto,
}
use golem_harness.MockClient.{new_trajectory_id, send, send_both, send_sensitive, unix_nano}
use golem_harness.Trajectory.{accept, RawFrame}
use golem_harness.Auth.Memory.{new_memory_replay_guard}
use golem_harness.Auth.Memory.Laws.{memory_guard}
use golem_harness.Sanitize.Outcomes.{new_pipeline}
use golem_harness.Ingest.{Service}
use golem_harness.Ingest.Calls.{Response, Call, no_tls}
use golem_harness.Ingest.Private.{or_frame}
use golem_harness.Ingest.Timed.{timed_pipeline, TimedService}
use golem_harness.MockClient.{
  KeyFiles, Contents, contents, not_exist, parse_key, create_key, load_or_create_keypair, Given,
  run, RunEnd, finished, synthetic_frame,
}
use golem_harness.MockClient.Keys.{IsLawfulFiles, load_or_create_keypair_again}
use golem_harness.MockClient.Sending.{serve, run_bank_refused}
use golem_harness.Tests.Toy.{toy, repeated}
use golem_harness.Tests.Envelopes.{key}
use golem_harness.Tests.Frames.{has_at, zero_frame}
use golem_harness.Tests.GuardTests.{some_injective}
use golem_harness.Tests.IngestTests.{kept}
use golem_harness.Tests.EdgeTests.{exact_times}

-- One file, in a directory that is always there; base64 leaves the bytes as they are.
abbrev read_of : Option Str → Contents
read_of none = not_exist
read_of (some data') = contents data'

abbrev key_file : KeyFiles
key_file = record {
  State = Option Str;
  mkdir_all = λ dir s. (false, s);
  read_file = λ path s. read_of s;
  write_file = λ path data' s. (false, some data');
  generate_key = λ s. (some key, s);
  encode_base64 = λ raw. raw;
  decode_base64 = λ data'. some data';
  private_path = λ dir. dir;
}

key_file-IsLawfulFiles : IsLawfulFiles key_file
key_file-IsLawfulFiles = record {
  HasDir = λ dir s. Unit;
  mkdir_makes = λ dir s e. tt;
  mkdir_again = λ dir s has. refl;
  write_keeps = λ dir path data' s has. tt;
  generate_keeps = λ dir s has. tt;
  read-write = λ path data' s e. refl;
  decode-encode = λ raw. refl;
  length-generate = λ s k e. ap length (sym (some_injective e));
}

created : (load_or_create_keypair toy key_file (text "keys") none).0 ≡ ok (repeated 32 7, key)
unfolding load_or_create_keypair create_key
created = refl

load_or_create_keypair_again_example :
    (load_or_create_keypair toy key_file (text "keys") (some key)
      ≡ (ok (repeated 32 7, key), some key))
    × (repeated 32 7 ≡ repeated 32 7)
    × (length key ≡ private_key_size)
unfolding load_or_create_keypair create_key
load_or_create_keypair_again_example =
    load_or_create_keypair_again toy key_file key_file-IsLawfulFiles (text "keys") none
      (repeated 32 7) key created

-- Seven nanoseconds after 1970.
abbrev at : Time
at = pos (62_135_596_800 * second + 7)

abbrev given : Given
given = record {
  random = some [];
  at_trajectory = at;
  at_sequence = at;
  at_allowed = at;
  signs_allowed = at;
  at_sensitive = at;
  signs_sensitive = at;
}

-- A platform that prints no time, which would take long.
abbrev quick : Platform
quick = record toy { format_time = λ t. [] }

-- A payload is a byte for the package and the trajectory id.
abbrev marshal : RawFrame → Option Str
marshal frame = some (
    (if str_eq frame.foreground_app.package_name (text "com.example.bank") then 1 else 0)
    ∷ frame.trajectory_id)

abbrev unmarshal : Str → Option RawFrame
unmarshal [] = none
unmarshal (c ∷ id) = some (
    if c == 1
    then synthetic_frame at id (id ++ text "-sensitive") 8 (text "com.example.bank")
    else synthetic_frame at id (id ++ text "-allowed") 7 (text "com.android.settings"))

abbrev service : Service memory_guard (timed_pipeline has_at quick) kept
service = record {
  verifier = some (record {
    registry = some (λ id. some (record {
      device_id = id;
      public_key = repeated 32 7;
      public_key_id = text "mock-key";
      client_cert_fingerprint_sha256 = [];
    }));
    replay_guard = some new_memory_replay_guard;
    max_payload_bytes = pos 1024;
    ttl = pos 60_000_000_000;
  });
  sanitizer = some ((λ n. at), new_pipeline (text "com.android.settings" ∷ []) []);
  storage = some [];
  log = [];
}

abbrev calls : ℕ → Call
calls n = record { now = at; now' = at; peer = no_tls }

abbrev ran :
    (RunEnd × Option Str)
    × Option (
        TimedService memory_guard
          (timed_pipeline has_at quick)
          kept
          quick
          unmarshal
          (or_frame zero_frame))
ran =
    run quick key_file marshal exact_times
      (serve has_at quick memory_guard kept unmarshal (or_frame zero_frame) key_file marshal
        exact_times)
      given (text "keys") none (some (calls, service))

answers :
    (first : Response) × (second : Response) × (ran.0.0 ≡ finished first second)
    × (first.decision ≡ accept)
unfolding run load_or_create_keypair create_key new_trajectory_id send_both send send_sensitive
    unix_nano build_signed_envelope_with_key sign_envelope str_eq signature_alg_ed25519
    canonical_bytes synthetic_frame hash_payload hex_encode client_ingest_frame grpc_ingest_frame
    envelope_from_proto envelope_to_proto ◌-ℤ◌ text response_from_proto response_to_proto decimal
    digit_loop parse_key decision_from_proto decision_to_proto layout timed_ingest ingest_frame
    authorize verify authenticate check_fields check_time ◌+ℤ◌ sub check_hash lookup check_key_id
    bind_client_cert check_signature check_and_record ensure contains peer_certificate_fingerprint
    decode bind_envelope_to_frame sanitize decide store respond process trim_space with_defaults
    new_pipeline add_sensitive insert default_sensitive_packages Strings.contains add_allowed node
    sanitize_attributes sanitize_text has_regex_pii match_loop accepted_as quarantined_as
    default_version
answers = (_, _, refl, refl)

str_injective : {a b : Str} → ◌≡◌ {A = Option Str} (some a) (some b) → a ≡ b
str_injective e = cc

decodes :
    (id payload : Str)
    → marshal (synthetic_frame at id (id ++ text "-sensitive") 8 (text "com.example.bank"))
      ≡ some payload
    → unmarshal payload
      ≡ some (synthetic_frame at id (id ++ text "-sensitive") 8 (text "com.example.bank"))
unfolding synthetic_frame text str_eq
decodes id payload e = subst (λ p. unmarshal p ≡ unmarshal (1 ∷ id)) (str_injective e) refl

run_bank_refused_example : answers.1.decision ≢ accept
unfolding text lookup default_sensitive_packages new_pipeline add_sensitive str_eq unix_nano ◌-ℤ◌
run_bank_refused_example =
    run_bank_refused has_at quick memory_guard kept unmarshal (or_frame zero_frame) key_file marshal
      exact_times given (text "keys") none calls service answers.0 answers.1 refl
      (λ id e. decodes id) refl refl refl refl answers.2
