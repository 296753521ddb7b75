-- ===== src/Auth/Checks.antt =====
-- server/internal/auth/auth.go: what each check of Verify accepts, said without the code.
use golem_harness.Base.{Str, ◌≡◌, ◌≢◌, ◌↔◌, ◌⊎◌, true, [], arith, length, str_eq_iff}
use golem_harness.Base.Int.{ℤ, pos, ◌+ℤ◌, ◌-ℤ◌, ◌≤ℤ◌, ◌<ℤ◌}
use golem_harness.Clock.{Time, Duration, max_duration, sub}
use golem_harness.Errors.{cert_mismatch, ok, err}
use golem_harness.Platform.{Platform, public_key_size, signature_size}
use golem_harness.Signing.{
  SignedEnvelope, signature_alg_ed25519, hash_payload, layout, canonical_bytes,
}
use golem_harness.Auth.{
  default_clock_skew, bind_client_cert, check_fields, check_time, effective_ttl, check_key_id,
  check_hash, check_signature,
}
use golem_harness.Auth.Registry.{Device}

-- Nothing is bound, or there is a peer certificate and it is the one that each side names.
pub record CertMatches (device : Device) (e : SignedEnvelope) (peer : Str) : Type 0 where
  pub present :
      (device.client_cert_fingerprint_sha256 ≢ []) ⊎ (e.client_cert_fingerprint_sha256 ≢ [])
      → peer ≢ []
  pub registry :
      device.client_cert_fingerprint_sha256 ≢ [] → device.client_cert_fingerprint_sha256 ≡ peer
  pub envelope : e.client_cert_fingerprint_sha256 ≢ [] → e.client_cert_fingerprint_sha256 ≡ peer

bind_accepts :
    (device : Device) (e : SignedEnvelope) (peer : Str)
    → CertMatches device e peer
    → bind_client_cert device e peer ≡ ok tt
unfolding bind_client_cert
bind_accepts device e peer m =
    let w = device.client_cert_fingerprint_sha256 in
    let v = e.client_cert_fingerprint_sha256 in
    ground (arith, str_eq_iff w peer, str_eq_iff v peer, str_eq_iff w v)

accepted_bind :
    (device : Device) (e : SignedEnvelope) (peer : Str)
    → bind_client_cert device e peer ≡ ok tt
    → CertMatches device e peer
unfolding bind_client_cert
accepted_bind device e peer h = record {
  present = ground arith;
  registry = ground (arith, str_eq_iff device.client_cert_fingerprint_sha256 peer);
  envelope = ground (arith, str_eq_iff e.client_cert_fingerprint_sha256 peer);
}

-- Certificate binding passes exactly when nothing is bound, or there is a peer certificate and it
-- is the one that each side names.
pub bind_client_cert_exact :
    (device : Device) (e : SignedEnvelope) (peer : Str)
    → (bind_client_cert device e peer ≡ ok tt) ↔ CertMatches device e peer
bind_client_cert_exact device e peer = (accepted_bind device e peer, bind_accepts device e peer)

-- Every refusal of it is the certificate mismatch.
pub bind_client_cert_refuses :
    (device : Device) (e : SignedEnvelope) (peer : Str)
    → (bind_client_cert device e peer ≡ ok tt)
      ⊎ (bind_client_cert device e peer ≡ err cert_mismatch)
unfolding bind_client_cert
bind_client_cert_refuses device e peer = ground arith

-- The public key ids of the device and of the envelope are the same, or both empty.
pub check_key_id_exact :
    (device : Device) (e : SignedEnvelope)
    → (check_key_id device e ≡ ok tt) ↔ (device.public_key_id ≡ e.public_key_id)
unfolding check_key_id
check_key_id_exact device e = ground (arith, str_eq_iff device.public_key_id e.public_key_id)

-- What the envelope's own fields must be.
pub record FieldsValid (max_payload_bytes : ℤ) (e : SignedEnvelope) : Type 0 where
  pub protocol_version : e.protocol_version ≢ []
  pub device_id : e.device_id ≢ []
  pub trajectory_id : e.trajectory_id ≢ []
  pub frame_id : e.frame_id ≢ []
  pub alg : e.signature_alg ≡ signature_alg_ed25519
  pub signature : length e.detached_signature ≡ signature_size
  pub payload : e.payload ≢ []
  pub size : pos 0 <ℤ max_payload_bytes → pos (length e.payload) ≤ℤ max_payload_bytes

pub check_fields_exact : (m : ℤ) (e : SignedEnvelope) → (check_fields m e ≡ ok tt) ↔ FieldsValid m e
unfolding check_fields
check_fields_exact m e = (
  λ h. record {
    protocol_version = ground arith;
    device_id = ground arith;
    trajectory_id = ground arith;
    frame_id = ground arith;
    alg = ground (arith, str_eq_iff e.signature_alg signature_alg_ed25519);
    signature = ground arith;
    payload = ground arith;
    size = ground arith;
  },
  λ v. ground (arith, str_eq_iff e.signature_alg signature_alg_ed25519),
)

-- What the time of signing must be: set, at most 30 seconds ahead of the clock, and no older than
-- the time to live.
pub record TimeValid (ttl : Duration) (now now' : Time) (e : SignedEnvelope) : Type 0 where
  pub set : e.signed_at ≢ pos 0
  pub ahead : e.signed_at ≤ℤ now +ℤ default_clock_skew
  pub age : now' -ℤ e.signed_at ≤ℤ effective_ttl ttl

-- The checks on the time pass exactly if the time of signing is set, at most 30 seconds ahead of
-- the clock and no older than the time to live, where that is below the largest duration.
pub check_time_exact :
    (ttl : Duration) (now now' : Time) (e : SignedEnvelope)
    → effective_ttl ttl <ℤ max_duration
    → (check_time ttl now now' e ≡ ok tt) ↔ TimeValid ttl now now' e
unfolding check_time sub
check_time_exact ttl now now' e bound = (
  λ h. record { set = ground arith; ahead = ground arith; age = ground arith },
  λ v. ground arith,
)

module _ (P : Platform) where
  pub check_hash_exact :
      (e : SignedEnvelope)
      → hash_payload P e.payload ≢ []
      → (check_hash P e ≡ ok tt) ↔ (e.payload_sha256_hex ≡ hash_payload P e.payload)
  unfolding check_hash
  check_hash_exact e h = ground (arith, str_eq_iff e.payload_sha256_hex (hash_payload P e.payload))

  -- What the signature must be, for an envelope that has canonical bytes.
  pub record SignatureValid (device : Device) (e : SignedEnvelope) : Type 0 where
    pub key : length device.public_key ≡ public_key_size
    pub verified : P.verify device.public_key (layout P e) e.detached_signature ≡ true

  pub check_signature_exact :
      (device : Device) (e : SignedEnvelope)
      → canonical_bytes P e ≡ ok (layout P e)
      → (check_signature P device e ≡ ok tt) ↔ SignatureValid device e
  unfolding check_signature
  check_signature_exact device e c =
      rw c (λ h. record { key = ground arith; verified = ground arith }, λ v. ground arith)
