-- ===== src/Tests/AcceptedTests.antt =====
-- The test device sends its frame, which the service accepts.
use golem_harness.Base.{text, str_eq, ◌≡◌, refl, false, none, some, [], ◌∷◌, arith}
use golem_harness.Base.Dict.{lookup, insert}
use golem_harness.Base.Int.{pos}
use golem_harness.Strings
use golem_harness.Strings.{trim_space}
use golem_harness.Trajectory.{accept, SanitizedFrame}
use golem_harness.Auth.Registry.{lookup_device}
use golem_harness.Auth.Memory.{new_memory_replay_guard, check_and_record, ensure, contains}
use golem_harness.Auth.Memory.Laws.{memory_guard}
use golem_harness.Sanitize.Outcomes.{
  new_pipeline, add_sensitive, add_allowed, default_sensitive_packages,
}
use golem_harness.Ingest.{ingest_frame}
use golem_harness.Ingest.Calls.{Response, peer_certificate_fingerprint}
use golem_harness.Ingest.Private.{or_frame}
use golem_harness.Signing.{SignedEnvelope}
use golem_harness.Auth.Checks.{TimeValid}
use golem_harness.Client.{envelope_of, answered, client_ingest_frame}
use golem_harness.Client.Accepted.{IsEnrolled, client_accepted}
use golem_harness.Storage
use golem_harness.Storage.{ensure_writer, rotate_open, rotate_found, reopen, open_file, append_line}
use golem_harness.Storage.Paths.{validate_sanitized_frame}
use golem_harness.Tests.Toy.{toy, toy-IsLawful, repeated}
use golem_harness.Tests.Envelopes.{key, device, table, verifier}
use golem_harness.Tests.Frames.{has_at, zero_frame}
use golem_harness.Tests.AuthTests.{bound, no_cert, in_time}
use golem_harness.Tests.IngestTests.{call}
use golem_harness.Tests.AppendedTests.{sanitizer, lines, service}
use golem_harness.Tests.StorageTests.{sink}
use golem_harness.Tests.EdgeTests.{exact_times, marshal, unmarshal, named, built, named-built}

abbrev sent : SignedEnvelope
sent = envelope_of toy marshal (pos 5) named [] [] (text "{}")

enrolled :
    IsEnrolled toy (lookup_device table) key (peer_certificate_fingerprint toy call.peer) sent
unfolding text lookup_device lookup str_eq peer_certificate_fingerprint
enrolled = record {
  device = device;
  found = refl;
  key = refl;
  key_id = refl;
  cert = record {
    present = no_cert.present;
    registry = no_cert.registry;
    envelope = no_cert.envelope;
  };
}

at_nine : TimeValid verifier.ttl call.now call.now' sent
at_nine = record { set = in_time.set; ahead = in_time.ahead; age = in_time.age }

-- The JSONL sink writes every frame that passes its validation.
written :
    (f : SanitizedFrame)
    → validate_sanitized_frame f ≡ none
    → (lines.write_sanitized_frame f sink).0 ≡ false
unfolding Storage.write_sanitized_frame ensure_writer rotate_open rotate_found reopen open_file
    append_line lookup insert str_eq text
written f valid = rw (valid, Storage.write_sanitized_frame) refl

client_accepted_example :
    (r : Response) × ((client_ingest_frame exact_times
        (λ x.
          ingest_frame memory_guard sanitizer lines toy unmarshal call
            (or_frame zero_frame)
            (some x))
        (some built)
        (some service)).0
      ≡ answered r)
    × (r.decision ≡ accept)
unfolding text lookup_device lookup str_eq peer_certificate_fingerprint check_and_record ensure
    contains trim_space new_pipeline add_sensitive add_allowed default_sensitive_packages insert
    Strings.contains
client_accepted_example =
    client_accepted toy toy-IsLawful exact_times has_at (pos 9) memory_guard lines marshal unmarshal
      zero_frame (text "com.calc" ∷ []) (text " org.chat " ∷ []) call service verifier sink
      (lookup_device table) new_memory_replay_guard (repeated 32 7) (pos 5) named [] [] (text "{}")
      built refl refl refl refl refl bound refl refl named-built refl enrolled at_nine refl refl
      (λ x. cc) (λ x. ground arith) refl (λ x. cc) refl refl (λ x. cc) written
