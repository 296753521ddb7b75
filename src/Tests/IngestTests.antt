-- ===== src/Tests/IngestTests.antt =====
-- The service on the test envelope: a sink that keeps the frames, and a payload that is a frame of
-- the calculator.
use golem_harness.Base.{
  Str, text, str_eq, ◌≡◌, refl, ◌↔◌, ◌⊎◌, false, Option, none, some, List, [], ◌∷◌,
}
use golem_harness.Base.Int.{pos}
use golem_harness.Trajectory.{accept, RawFrame, SanitizedFrame}
use golem_harness.Auth.Memory.Laws.{memory_guard}
use golem_harness.Auth.{
  verify, authenticate, check_fields, check_time, check_hash, check_key_id, bind_client_cert,
  check_signature,
}
use golem_harness.Auth.Registry.{lookup_device}
use golem_harness.Auth.Memory.{check_and_record, ensure, contains}
use golem_harness.Base.Dict.{lookup, insert}
use golem_harness.Base.Int.{◌+ℤ◌, ◌-ℤ◌}
use golem_harness.Clock.{sub}
use golem_harness.Decimal.{decimal, digit_loop}
use golem_harness.Platform.{hex_encode}
use golem_harness.Signing.{signature_alg_ed25519, hash_payload, canonical_bytes, layout}
use golem_harness.Strings
use golem_harness.Strings.{trim_space}
use golem_harness.Sanitize.Redactor.{
  node, sanitize_attributes, sanitize_text, has_regex_pii, match_loop,
}
use golem_harness.Sanitize.Process.{process}
use golem_harness.Sanitize.Outcomes.{
  with_defaults, new_pipeline, add_sensitive, add_allowed, default_sensitive_packages, accepted_as,
}
use golem_harness.Ingest.{authorize, decode, sanitize, decide, store, Service, ingest_frame}
use golem_harness.Ingest.Calls.{
  respond, Sink, Sanitizer, Response, Reply, response, no_tls, Call, peer_certificate_fingerprint,
}
use golem_harness.Ingest.Bind.{Agrees, IsBound, filled, bind_envelope_to_frame, bind_exact}
use golem_harness.Ingest.Storing.{IsCleared, ingest_frame-IsCleared}
use golem_harness.Ingest.Private.{
  pipeline_sanitizer, or_frame, IsDelivered, ingest_frame-IsDelivered,
}
use golem_harness.Tests.Toy.{toy}
use golem_harness.Tests.Envelopes.{signed, verifier}
use golem_harness.Tests.Frames.{has_at, calculator, pipeline, zero_frame}

abbrev pub kept : Sink
kept = record {
  State = List SanitizedFrame;
  write_sanitized_frame = λ f stored. (false, f ∷ stored);
}

abbrev pub sanitizer : Sanitizer
sanitizer = pipeline_sanitizer has_at toy (pos 9)

abbrev pub unmarshal : Str → Option RawFrame
unmarshal payload = some calculator

abbrev pub service : Service memory_guard sanitizer kept
service = record {
  verifier = some verifier;
  sanitizer = some pipeline;
  storage = some [];
  log = [];
}

abbrev pub call : Call
call = record { now = pos 9; now' = pos 9; peer = no_tls }

bind_exact_example :
    (bind_envelope_to_frame signed calculator ≡ some (filled signed calculator)) ↔ (
      Agrees signed calculator
      × IsBound signed (filled signed calculator)
      × (filled signed calculator ≡ filled signed calculator))
bind_exact_example = bind_exact signed calculator (filled signed calculator)

abbrev served : Reply × Service memory_guard sanitizer kept
served =
    ingest_frame memory_guard sanitizer kept toy unmarshal call (or_frame zero_frame) (some signed)
      service

ingest_frame-IsCleared_example :
    (served.1.storage ≡ service.storage)
    ⊎ IsCleared memory_guard sanitizer kept toy unmarshal
        (or_frame zero_frame)
        call
        signed
        verifier
        pipeline
        []
        served.1.storage
ingest_frame-IsCleared_example =
    ingest_frame-IsCleared memory_guard sanitizer kept toy unmarshal (or_frame zero_frame) call
      signed service verifier pipeline [] refl refl refl

pub passes : (verify toy memory_guard (pos 9) (pos 9) signed [] verifier).0 ≡ none
unfolding verify authenticate check_fields text str_eq signature_alg_ed25519 check_time ◌+ℤ◌ sub
    ◌-ℤ◌ check_hash hash_payload hex_encode lookup_device lookup check_key_id bind_client_cert
    check_signature canonical_bytes layout decimal digit_loop check_and_record ensure contains
passes = refl

served-accepts : (r : Response) × (served.0 ≡ response r) × (r.decision ≡ accept)
unfolding ingest_frame authorize verify authenticate check_fields text str_eq signature_alg_ed25519
    check_time ◌+ℤ◌ sub ◌-ℤ◌ check_hash hash_payload hex_encode lookup_device lookup check_key_id
    bind_client_cert check_signature canonical_bytes layout decimal digit_loop check_and_record
    ensure contains peer_certificate_fingerprint decode bind_envelope_to_frame sanitize decide store
    respond process trim_space with_defaults new_pipeline add_sensitive insert
    default_sensitive_packages Strings.contains add_allowed node sanitize_attributes sanitize_text
    has_regex_pii match_loop accepted_as
served-accepts = (_, refl, refl)

abbrev answer : Response
answer = served-accepts.0

ingest_frame-IsDelivered_example :
    IsDelivered has_at toy
      (pos 9)
      memory_guard
      kept
      unmarshal
      zero_frame
      signed
      pipeline
      []
      served.1.storage
ingest_frame-IsDelivered_example =
    ingest_frame-IsDelivered has_at toy (pos 9) memory_guard kept unmarshal zero_frame call signed
      service verifier pipeline [] answer refl refl refl served-accepts.1 served-accepts.2
