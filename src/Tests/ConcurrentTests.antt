-- ===== src/Tests/ConcurrentTests.antt =====
-- Two calls with the test envelope at the same time.
use golem_harness.Base.{◌+◌, ◌≤◌, text, str_eq, refl, List, [], ◌∷◌}
use golem_harness.Auth.Memory.Laws.{memory_guard, memory_guard-IsGuard, memory_guard-starts}
use golem_harness.Auth.Memory.{new_memory_replay_guard}
use golem_harness.Errors.{replay}
use golem_harness.Auth.{
  Verifier, verify, authenticate, check_fields, check_time, check_hash, check_key_id,
  bind_client_cert, check_signature,
}
use golem_harness.Auth.Registry.{lookup_device}
use golem_harness.Auth.Replays.{frame_of}
use golem_harness.Auth.Memory.{check_and_record, ensure, contains}
use golem_harness.Base.Dict.{lookup, insert}
use golem_harness.Base.Int.{pos, ◌+ℤ◌, ◌-ℤ◌}
use golem_harness.Clock.{sub}
use golem_harness.Decimal.{decimal, digit_loop}
use golem_harness.Platform.{hex_encode}
use golem_harness.Signing.{signature_alg_ed25519, hash_payload, canonical_bytes, layout}
use golem_harness.Ingest.Calls.{peer_certificate_fingerprint}
use golem_harness.Ingest.{refuse_auth}
use golem_harness.Ingest.Private.{or_frame}
use golem_harness.Ingest.Concurrent.{
  Answer, System, Reaches, start, later, pass, refuse, finish, with_verifier,
}
use golem_harness.Ingest.Concurrent.Once.{times, times_accepted, IsIdle, accepted_once}
use golem_harness.Ingest.Concurrent.Sequential.{ingest_all, ingest_all-accepts_once}
use golem_harness.Tests.Toy.{toy}
use golem_harness.Tests.Envelopes.{signed, verifier}
use golem_harness.Tests.Frames.{pipeline, zero_frame}
use golem_harness.Tests.IngestTests.{kept, sanitizer, unmarshal, service, call, passes}

abbrev Calls : Type 0
Calls = System memory_guard sanitizer kept toy unmarshal (or_frame zero_frame)

abbrev idle : Calls
idle = record { service = service; pending = []; answers = []; log = [] }

-- The same envelope twice, one call after the other.
abbrev in_turn : List Answer
in_turn =
    ingest_all memory_guard sanitizer kept toy unmarshal (or_frame zero_frame)
      ((call, signed) ∷ (call, signed) ∷ []) service []

ingest_all-accepts_once_example :
    times_accepted (text "d1") (text "f1") in_turn + times (text "d1") (text "f1") [] ≤ 1
ingest_all-accepts_once_example =
    ingest_all-accepts_once memory_guard sanitizer kept toy unmarshal (or_frame zero_frame)
      memory_guard-IsGuard ((call, signed) ∷ (call, signed) ∷ []) service verifier [] (text "d1")
      (text "f1") refl (memory_guard-starts new_memory_replay_guard) tt

idle-IsIdle :
    IsIdle memory_guard memory_guard-IsGuard sanitizer kept toy unmarshal
      (or_frame zero_frame)
      idle
      verifier
idle-IsIdle = record {
  has = refl;
  stands = memory_guard-starts new_memory_replay_guard;
  clean = tt;
  nothing_pending = refl;
  nothing_answered = refl;
}

-- The second call comes in while the first is between its steps, and is refused.
abbrev passed : Calls
passed = record idle {
  service =
      with_verifier memory_guard sanitizer kept toy unmarshal (or_frame zero_frame) verifier'
        service;
  pending = signed ∷ [];
  log = frame_of signed ∷ [];
}
  where
    verifier' : Verifier memory_guard
    verifier' = (verify toy memory_guard (pos 9) (pos 9) signed [] verifier).1

first_passes : Reaches memory_guard sanitizer kept toy unmarshal (or_frame zero_frame) idle passed
unfolding peer_certificate_fingerprint
first_passes = later start (pass call signed verifier refl passes)

both : (t : Calls) × Reaches memory_guard sanitizer kept toy unmarshal (or_frame zero_frame) idle t
unfolding verify authenticate check_fields text str_eq signature_alg_ed25519 check_time ◌+ℤ◌ sub
    ◌-ℤ◌ check_hash hash_payload hex_encode lookup_device lookup check_key_id bind_client_cert
    check_signature canonical_bytes layout decimal digit_loop check_and_record ensure contains
    peer_certificate_fingerprint insert refuse_auth
both = (
  _,
  later
      (later first_passes (
        refuse call signed (verify toy memory_guard (pos 9) (pos 9) signed [] verifier).1 replay
          refl refl))
      (finish [] [] signed pipeline [] refl refl refl),
)

accepted_once_example :
    times_accepted (text "d1") (text "f1") both.0.answers + times (text "d1") (text "f1") idle.log
    ≤ 1
accepted_once_example =
    accepted_once memory_guard memory_guard-IsGuard sanitizer kept toy unmarshal
      (or_frame zero_frame) idle both.0 verifier (text "d1") (text "f1") idle-IsIdle both.1
