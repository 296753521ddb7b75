-- ===== src/Auth/Signed.antt =====
-- What SignEnvelope returns is what Verify accepts, and Verify never panics over a static registry.
use golem_harness.Base.{
  Str, ◌≡◌, ◌≢◌, sym, ap, ◌∙◌, List, false, Option, none, some, [], arith, length, inl, inr,
  Option-cases,
}
use golem_harness.Base.Int.{ℤ, pos, ◌≤ℤ◌, ◌<ℤ◌}
use golem_harness.Base.Dict.{Dict}
use golem_harness.Clock.{Time, Duration, max_duration}
use golem_harness.Errors.{panic, ok, err}
use golem_harness.Platform.{Platform, IsLawful, seed_size}
use golem_harness.Signing.{
  SignedEnvelope, lacks_ids, hash_payload, layout, canonical_bytes, sign_envelope,
}
use golem_harness.Signing.Laws.{sign_envelope-IsSigned}
use golem_harness.Auth.Guard.{ReplayGuard}
use golem_harness.Auth.{
  Verifier, verify, guarded, record_frame, bind_client_cert, check_fields, check_time,
  effective_ttl, check_key_id, check_hash, check_signature, authenticate,
}
use golem_harness.Auth.Registry.{Device, new_static_device_registry, lookup_device}
use golem_harness.Auth.Registry.Laws.{new_static_device_registry-IsWellFormed}
use golem_harness.Auth.Checks.{CertMatches, TimeValid}
use golem_harness.Auth.Accepts.{IsAuthentic-authenticate}

module _ (P : Platform) (L : IsLawful P) where
  -- An envelope signed with a key that was made from a seed of 32 bytes passes every check of
  -- Verify before the replay guard, if the registry has the device with the public half of the
  -- key, the identifiers and the payload are not empty, the payload fits, the key ids and the
  -- certificate agree, the time to live is below the largest duration, and the clock is near the
  -- time of signing.
  pub signed_authenticates :
      (lookup : Str → Option Device) (max_payload_bytes : ℤ) (ttl : Duration) (now now' : Time)
      (peer seed : Str) (e s : SignedEnvelope) (device : Device)
      → sign_envelope P (P.new_key_from_seed seed) e ≡ ok s
      → length seed ≡ seed_size
      → effective_ttl ttl <ℤ max_duration
      → lookup e.device_id ≡ some device
      → device.public_key ≡ P.public (P.new_key_from_seed seed)
      → device.public_key_id ≡ e.public_key_id
      → CertMatches device e peer
      → lacks_ids e ≡ false
      → e.payload ≢ []
      → (pos 0 <ℤ max_payload_bytes → pos (length e.payload) ≤ℤ max_payload_bytes)
      → TimeValid ttl now now' e
      → authenticate P lookup max_payload_bytes ttl now now' s peer ≡ ok tt
  signed_authenticates lookup m ttl now now' peer seed e s device signed seeded bound found key id
        cert ids payload fits time =
      let k = P.new_key_from_seed seed in
      let size = L.length-new_key_from_seed seed seeded in
      let g = sign_envelope-IsSigned P k e s signed in
      let same_id = ap (λ x. x.device_id) g.kept in
      let same_payload = ap (λ x. x.payload) g.kept in
      let same_time = ap (λ x. x.signed_at) g.kept in
      let same_cert = ap (λ x. x.client_cert_fingerprint_sha256) g.kept in
      IsAuthentic-authenticate P L lookup m ttl now now' peer s bound (record {
        device = device;
        found = ap lookup same_id ∙ found;
        fields = record {
          protocol_version = rw (ap (λ x. x.protocol_version) g.kept) (ground arith);
          device_id = rw same_id (ground arith);
          trajectory_id = rw (ap (λ x. x.trajectory_id) g.kept) (ground arith);
          frame_id = rw (ap (λ x. x.frame_id) g.kept) (ground arith);
          alg = g.alg;
          signature = ap length g.signature ∙ L.length-sign k (layout P s) size;
          payload = rw same_payload payload;
          size = rw same_payload fits;
        };
        time = record {
          set = rw same_time time.set;
          ahead = rw same_time time.ahead;
          age = rw same_time time.age;
        };
        hash = g.hash ∙ ap (hash_payload P) (sym same_payload);
        key_id = id ∙ sym (ap (λ x. x.public_key_id) g.kept);
        cert = record {
          present = rw same_cert cert.present;
          registry = cert.registry;
          envelope = rw same_cert cert.envelope;
        };
        signature = record {
          key = ap length key ∙ L.length-public k size;
          verified = simp (key, g.signature) (L.verify-sign seed (layout P s) seeded);
        };
      })

module _ (P : Platform) where
  -- Over a registry made from a list of devices no envelope makes signature verification panic.
  pub authenticate-ne-panic :
      (list : List Device) (table : Dict Device) (max_payload_bytes : ℤ) (ttl : Duration)
      (now now' : Time) (peer : Str) (e : SignedEnvelope)
      → new_static_device_registry list ≡ ok table
      → authenticate P (lookup_device table) max_payload_bytes ttl now now' e peer ≢ err panic
  unfolding authenticate check_fields check_time check_hash check_key_id bind_client_cert
      check_signature canonical_bytes
  authenticate-ne-panic list table m ttl now now' peer e made =
      elim (Option-cases (lookup_device table e.device_id)) [
        | inl x ↦ λ h. ground arith
        | inr (device, x) ↦ λ h.
            let sized =
              (new_static_device_registry-IsWellFormed list made).key_size e.device_id device x in
            ground arith
      ]

-- Verification passes where the checks before the replay guard do and the guard takes the frame.
pub verify-passes :
    (P : Platform) (G : ReplayGuard) (now now' : Time) (peer : Str) (e : SignedEnvelope)
    (v : Verifier G) (known : Str → Option Device) (g : G.State)
    → v.registry ≡ some known
    → v.replay_guard ≡ some g
    → authenticate P known v.max_payload_bytes v.ttl now now' e peer ≡ ok tt
    → (G.check_and_record e.device_id e.frame_id e.sequence g).0 ≡ none
    → (verify P G now now' e peer v).0 ≡ none
unfolding verify guarded record_frame
verify-passes P G now now' peer e v known g hr hg passed fresh = ground arith
