-- ===== src/Auth/Accepts.antt =====
-- server/internal/auth/auth.go: which envelopes Verify accepts, and what it leaves alone.
use golem_harness.Base.{
  Str, ◌≡◌, ◌≢◌, refl, ap, ◌↔◌, inl, inr, Option, none, some, [], arith, length, Option-cases,
}
use golem_harness.Base.Int.{ℤ, ◌<ℤ◌}
use golem_harness.Clock.{Time, Duration, max_duration}
use golem_harness.Errors.{Error, Result, ok, Result-cases}
use golem_harness.Platform.{Platform, IsLawful, length-hex_encode}
use golem_harness.Signing.{
  SignedEnvelope, signature_alg_ed25519, hash_payload, layout, canonical_bytes,
}
use golem_harness.Signing.Laws.{canonical_bytes_total}
use golem_harness.Auth.{Verifier, effective_ttl, authenticate, verify, record_frame, guarded}
use golem_harness.Auth.Registry.{Device}
use golem_harness.Auth.Guard.{ReplayGuard}
use golem_harness.Auth.Checks.{
  CertMatches, bind_client_cert_exact, check_key_id_exact, FieldsValid, check_fields_exact,
  TimeValid, check_time_exact, check_hash_exact, SignatureValid, check_signature_exact,
}

hash-ne-nil : (P : Platform) → IsLawful P → (m : Str) → hash_payload P m ≢ []
unfolding hash_payload
hash-ne-nil P L m e =
    absurd (omega (arith, ap length e, length-hex_encode (P.sha256 m), L.length-sha256 m))

module _ (P : Platform) (L : IsLawful P) where
  module _ (lookup_device : Str → Option Device) (max_payload_bytes : ℤ) (ttl : Duration)
      (now now' : Time) (peer : Str) (e : SignedEnvelope) where
    -- What an envelope must be to pass, apart from the replay guard.
    pub record IsAuthentic : Type 0 where
      pub device : Device
      pub found : lookup_device e.device_id ≡ some device
      pub fields : FieldsValid max_payload_bytes e
      pub time : TimeValid ttl now now' e
      pub hash : e.payload_sha256_hex ≡ hash_payload P e.payload
      pub key_id : device.public_key_id ≡ e.public_key_id
      pub cert : CertMatches device e peer
      pub signature : SignatureValid P device e

    canonical_of :
        FieldsValid max_payload_bytes e
        → e.payload_sha256_hex ≡ hash_payload P e.payload
        → canonical_bytes P e ≡ ok (layout P e)
    unfolding signature_alg_ed25519
    canonical_of v h =
        canonical_bytes_total P e (ground arith) (ground (arith, hash-ne-nil P L e.payload))
          (ground arith)

    module _ (bound : effective_ttl ttl <ℤ max_duration) where
      pub authenticate-IsAuthentic :
          authenticate P lookup_device max_payload_bytes ttl now now' e peer ≡ ok tt → IsAuthentic
      unfolding authenticate
      authenticate-IsAuthentic h = elim (Option-cases (lookup_device e.device_id)) [
        | inl x ↦ absurd (ground arith)
        | inr (device, x) ↦
            let fields = (check_fields_exact max_payload_bytes e).0 (ground arith) in
            let hash = (check_hash_exact P e (hash-ne-nil P L e.payload)).0 (ground arith) in
            record {
              device = device;
              found = x;
              fields = fields;
              time = (check_time_exact ttl now now' e bound).0 (ground arith);
              hash = hash;
              key_id = (check_key_id_exact device e).0 (ground arith);
              cert = (bind_client_cert_exact device e peer).0 (ground arith);
              signature =
                  (check_signature_exact P device e (canonical_of fields hash)).0 (ground arith);
            }
      ]

      pub IsAuthentic-authenticate :
          IsAuthentic → authenticate P lookup_device max_payload_bytes ttl now now' e peer ≡ ok tt
      unfolding authenticate
      IsAuthentic-authenticate a = ground (
        arith,
        a.found,
        check_fields_exact max_payload_bytes e,
        check_time_exact ttl now now' e bound,
        check_hash_exact P e (hash-ne-nil P L e.payload),
        check_key_id_exact a.device e,
        bind_client_cert_exact a.device e peer,
        check_signature_exact P a.device e (canonical_of a.fields a.hash),
      )

module _ (P : Platform) (L : IsLawful P) (G : ReplayGuard) (now now' : Time) (peer : Str)
    (e : SignedEnvelope) (v : Verifier G) {lookup_device : Str → Option Device} {g : G.State}
    (has_registry : v.registry ≡ some lookup_device) (has_guard : v.replay_guard ≡ some g)
    (bound : effective_ttl v.ttl <ℤ max_duration) where
  abbrev Authentic : Type 0
  Authentic = IsAuthentic P L lookup_device v.max_payload_bytes v.ttl now now' peer e

  abbrev guard_call : Option Error × G.State
  guard_call = G.check_and_record e.device_id e.frame_id e.sequence g

  abbrev outcome : Result (Unit {0})
  outcome = authenticate P lookup_device v.max_payload_bytes v.ttl now now' e peer

  verify-guarded : verify P G now now' e peer v ≡ guarded P G outcome e v g
  unfolding verify
  verify-guarded = ground arith

  -- A verifier with a registry, a replay guard and a time to live below the largest duration
  -- returns no error exactly for an envelope that is authentic and that its guard accepts.
  pub verify_exact : ((verify P G now now' e peer v).0 ≡ none) ↔ (Authentic × (guard_call.0 ≡ none))
  unfolding guarded record_frame
  verify_exact = rw verify-guarded (elim (Result-cases outcome) [
    | inl (_, passed) ↦ rw passed (
      λ h. (authenticate-IsAuthentic P L lookup_device _ _ now now' peer e bound passed, h),
      λ h. h.1,
    )
    | inr (_, failed) ↦ rw failed (
      λ h. cc,
      λ h.
          let passed =
            IsAuthentic-authenticate P L lookup_device v.max_payload_bytes v.ttl now now' peer e
              bound h.0 in
          cc,
    )
  ])

  -- An envelope that is not authentic is refused by a configured verifier, and nothing is
  -- recorded: the verifier is left as it was, its replay guard included.
  pub verify_unauthenticated :
      ¬ Authentic
      → ((verify P G now now' e peer v).0 ≢ none) × ((verify P G now now' e peer v).1 ≡ v)
  unfolding guarded
  verify_unauthenticated h = rw verify-guarded (elim (Result-cases outcome) [
    | inl (_, passed) ↦
        absurd (h (authenticate-IsAuthentic P L lookup_device _ _ now now' peer e bound passed))
    | inr (_, failed) ↦ rw failed (λ x. cc, refl)
  ])
