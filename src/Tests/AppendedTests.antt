-- ===== src/Tests/AppendedTests.antt =====
-- The service with the JSONL sink on the test envelope.
use golem_harness.Base.{text, str_eq, ◌≡◌, refl, some, []}
use golem_harness.Base.Int.{pos}
use golem_harness.Trajectory.{accept}
use golem_harness.Auth.Memory.Laws.{memory_guard}
use golem_harness.Auth.{
  verify, authenticate, check_fields, check_time, check_hash, check_key_id, bind_client_cert,
  check_signature,
}
use golem_harness.Auth.Registry.{lookup_device}
use golem_harness.Auth.Memory.{check_and_record, ensure, contains}
use golem_harness.Base.Dict.{lookup, insert}
use golem_harness.Base.Int.{◌+ℤ◌, ◌-ℤ◌}
use golem_harness.Clock.{sub}
use golem_harness.Decimal.{decimal, digit_loop}
use golem_harness.Platform.{hex_encode}
use golem_harness.Signing.{signature_alg_ed25519, hash_payload, canonical_bytes, layout}
use golem_harness.Strings
use golem_harness.Strings.{trim_space}
use golem_harness.Sanitize.Redactor.{
  node, sanitize_attributes, sanitize_text, has_regex_pii, match_loop,
}
use golem_harness.Sanitize.Process.{process}
use golem_harness.Sanitize.Outcomes.{
  with_defaults, new_pipeline, add_sensitive, add_allowed, default_sensitive_packages, accepted_as,
}
use golem_harness.Ingest.{authorize, decode, sanitize, decide, store, Service, ingest_frame}
use golem_harness.Ingest.Calls.{
  respond, Sink, Sanitizer, Response, Reply, response, peer_certificate_fingerprint,
}
use golem_harness.Ingest.Bind.{bind_envelope_to_frame}
use golem_harness.Ingest.Private.{pipeline_sanitizer, or_frame}
use golem_harness.Tests.Toy.{toy}
use golem_harness.Tests.Envelopes.{signed, verifier}
use golem_harness.Tests.Frames.{has_at, pipeline, zero_frame}
use golem_harness.Trajectory.{SanitizedFrame}
use golem_harness.Storage
use golem_harness.Storage.{
  JsonlSink, ensure_writer, rotate_open, rotate_found, reopen, open_file, append_line,
}
use golem_harness.Storage.Paths.{validate_sanitized_frame}
use golem_harness.Storage.Writing.{IsAppended}
use golem_harness.Ingest.Appended.{jsonl_sink, ingest_frame-IsAppended}
use golem_harness.Tests.StorageTests.{disk, names, sink, encoded}
use golem_harness.Tests.IngestTests.{unmarshal, call}
use golem_harness.Sanitize.Outcomes.{default_version, sanitized_frame}

abbrev pub sanitizer : Sanitizer
sanitizer = pipeline_sanitizer has_at toy (pos 9)

abbrev pub lines : Sink
lines = jsonl_sink disk names encoded (pos 9)

abbrev pub service : Service memory_guard sanitizer lines
service = record {
  verifier = some verifier;
  sanitizer = some pipeline;
  storage = some sink;
  log = [];
}

abbrev served : Reply × Service memory_guard sanitizer lines
served =
    ingest_frame memory_guard sanitizer lines toy unmarshal call (or_frame zero_frame) (some signed)
      service

appended-accepts : (r : Response) × (served.0 ≡ response r) × (r.decision ≡ accept)
unfolding ingest_frame authorize verify authenticate check_fields text str_eq signature_alg_ed25519
    check_time ◌+ℤ◌ sub ◌-ℤ◌ check_hash hash_payload hex_encode lookup_device lookup check_key_id
    bind_client_cert check_signature canonical_bytes layout decimal digit_loop check_and_record
    ensure contains peer_certificate_fingerprint decode bind_envelope_to_frame sanitize decide store
    respond process trim_space with_defaults new_pipeline add_sensitive insert
    default_sensitive_packages Strings.contains add_allowed node sanitize_attributes sanitize_text
    has_regex_pii match_loop accepted_as Storage.write_sanitized_frame ensure_writer rotate_open
    rotate_found reopen open_file append_line validate_sanitized_frame default_version
    sanitized_frame
appended-accepts = (_, refl, refl)

ingest_frame-IsAppended_example :
    (f : SanitizedFrame) × (t : JsonlSink disk names) × (served.1.storage ≡ some t)
    × IsAppended disk names encoded (pos 9) f sink t
    × (f.frame_id ≡ text "f1")
    × (f.device.device_id ≡ text "d1")
    × (f.sequence ≡ 7)
ingest_frame-IsAppended_example =
    ingest_frame-IsAppended disk names encoded (pos 9) has_at toy (pos 9) memory_guard unmarshal
      zero_frame call signed service verifier pipeline sink appended-accepts.0 refl refl refl
      appended-accepts.1 appended-accepts.2
