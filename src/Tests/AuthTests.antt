-- ===== src/Tests/AuthTests.antt =====
-- The verifier on the test envelope.
use golem_harness.Base.{
  text, str_eq, ◌≡◌, ◌≢◌, refl, sym, ◌∙◌, ◌↔◌, Option, none, some, [], ◌∷◌, arith, inl, inr,
}
use golem_harness.Base.Int.{pos, ◌+ℤ◌, ◌-ℤ◌, ◌<ℤ◌}
use golem_harness.Base.Dict.{lookup, insert}
use golem_harness.Clock.{max_duration}
use golem_harness.Errors.{ok, err, panic}
use golem_harness.Signing.{SignedEnvelope}
use golem_harness.Auth.{effective_ttl, authenticate, verify}
use golem_harness.Auth.Registry.{Device, new_static_device_registry, lookup_device}
use golem_harness.Auth.Memory.{new_memory_replay_guard, check_and_record}
use golem_harness.Auth.Memory.Laws.{memory_guard}
use golem_harness.Auth.Checks.{CertMatches, TimeValid}
use golem_harness.Auth.Accepts.{IsAuthentic, verify_exact}
use golem_harness.Auth.Signed.{signed_authenticates, authenticate-ne-panic}
use golem_harness.Auth.Replays.{Attempt}
use golem_harness.Tests.Toy.{toy, toy-IsLawful, repeated}
use golem_harness.Tests.Envelopes.{device, table, unsigned, signed, sign_unsigned, verifier}

pub bound : effective_ttl verifier.ttl <ℤ max_duration
bound = ground arith

registered : lookup_device table unsigned.device_id ≡ some device
unfolding lookup_device lookup str_eq text
registered = refl

made : new_static_device_registry (device ∷ []) ≡ ok table
unfolding new_static_device_registry insert text
made = refl

pub no_cert : CertMatches device unsigned []
no_cert = record {
  present = λ x. elim x [ inl a ↦ absurd (a refl) | inr b ↦ absurd (b refl) ];
  registry = λ x. absurd (x refl);
  envelope = λ x. absurd (x refl);
}

pub in_time : TimeValid verifier.ttl (pos 9) (pos 9) unsigned
unfolding ◌+ℤ◌ ◌-ℤ◌
in_time = record { set = λ x. cc; ahead = ground arith; age = ground arith }

signed_authenticates_example :
    authenticate toy (lookup_device table) (pos 1024) verifier.ttl (pos 9) (pos 9) signed [] ≡ ok tt
unfolding text
signed_authenticates_example =
    signed_authenticates toy toy-IsLawful (lookup_device table) (pos 1024) verifier.ttl (pos 9)
      (pos 9) [] (repeated 32 7) unsigned signed device sign_unsigned refl bound registered refl
      refl no_cert refl (λ x. cc) (λ x. ground arith) in_time

-- The envelope with another payload, whose hash no longer fits.
abbrev tampered : SignedEnvelope
tampered = record signed { payload = text "[]" }

authenticate-ne-panic_example :
    authenticate toy (lookup_device table) (pos 1024) verifier.ttl (pos 9) (pos 9) tampered []
    ≢ err panic
authenticate-ne-panic_example =
    authenticate-ne-panic toy (device ∷ []) table (pos 1024) verifier.ttl (pos 9) (pos 9) []
      tampered made

verify_exact_example : ((verify toy memory_guard (pos 9) (pos 9) signed [] verifier).0 ≡ none) ↔ (
    IsAuthentic toy toy-IsLawful
      (lookup_device table)
      (pos 1024)
      verifier.ttl
      (pos 9)
      (pos 9)
      []
      signed
    × ((check_and_record (text "d1") (text "f1") 7 new_memory_replay_guard).0 ≡ none))
verify_exact_example =
    verify_exact toy toy-IsLawful memory_guard (pos 9) (pos 9) [] signed verifier refl refl bound

missing : lookup_device table (text "d2") ≡ none
unfolding lookup_device lookup str_eq text
missing = refl

none-ne-some : {d : Device} → ◌≡◌ {A = Option Device} none (some d) → ⊥
none-ne-some e = cc

not_found :
    ¬ IsAuthentic toy toy-IsLawful
      (lookup_device table)
      (pos 1024)
      verifier.ttl
      (pos 9)
      (pos 9)
      []
      (record signed { device_id = text "d2" })
not_found a = none-ne-some (sym missing ∙ a.found)

abbrev attempt_at_9 : Attempt
attempt_at_9 = record { now = pos 9; now' = pos 9; peer = []; envelope = signed }
