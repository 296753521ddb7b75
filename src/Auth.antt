-- ===== src/Auth.antt =====
-- server/internal/auth/auth.go: devices, the interface of a replay guard, and the verifier.
pub mod Registry
pub mod Guard
pub mod Memory
pub mod Sqlite
pub mod Checks
pub mod Accepts
pub mod Signed
pub mod Replays
pub mod Log
use golem_harness.Base.{
  ℕ, ◌*◌, Str, text, is_empty, str_eq, Bool, true, false, ◌||◌, ◌&&◌, not, Option, none, some,
  length, ◌==◌, if◌then◌else◌,
}
use golem_harness.Base.Int.{ℤ, pos, ◌+ℤ◌, ltb_ℤ}
use golem_harness.Clock.{Time, Duration, second, is_zero, after, sub}
use golem_harness.Errors.{
  Error, malformed, missing_signature, invalid_signature, expired_payload, future_payload,
  oversized_payload, unauthorized, cert_mismatch, plain, panic, Result, ok, err, ◌>>=◌, ◌>>◌,
  refuse,
}
use golem_harness.Platform.{Platform, public_key_size, signature_size}
use golem_harness.Signing.{
  SignedEnvelope, signature_alg_ed25519, lacks_ids, hash_payload, canonical_bytes,
}
use golem_harness.Auth.Registry.{Device}
use golem_harness.Auth.Guard.{ReplayGuard}

-- type Verifier; a nil registry or guard is `none`. The clock is an argument of `verify`.
pub record Verifier (G : ReplayGuard) : Type 0 where
  pub registry : Option (Str → Option Device)
  pub replay_guard : Option G.State
  pub max_payload_bytes : ℤ
  pub ttl : Duration

-- defaultClockSkew
abbrev pub default_clock_skew : Duration
default_clock_skew = pos (30 * second)

abbrev pub default_ttl : Duration
default_ttl = pos (300 * second)

-- bindClientCert
unfoldable pub bind_client_cert : Device → SignedEnvelope → Str → Result (Unit {0})
bind_client_cert device e peer =
    let want_registry = device.client_cert_fingerprint_sha256 in
    let want_envelope = e.client_cert_fingerprint_sha256 in
    if is_empty want_registry && is_empty want_envelope then ok tt else do
      refuse (is_empty peer) cert_mismatch
      refuse (not (is_empty want_registry) && not (str_eq want_registry peer)) cert_mismatch
      refuse (not (is_empty want_envelope) && not (str_eq want_envelope peer)) cert_mismatch
      refuse
          (not (is_empty want_registry)
            && not (is_empty want_envelope)
            && not (str_eq want_registry want_envelope))
          cert_mismatch

-- The checks on the envelope's own fields.
unfoldable pub check_fields : ℤ → SignedEnvelope → Result (Unit {0})
check_fields max_payload_bytes e = do
  refuse (lacks_ids e)
      (malformed (text "protocol version, device id, trajectory id, and frame id are required"))
  refuse (not (str_eq e.signature_alg signature_alg_ed25519))
      (malformed (text "unsupported signature algorithm"))
  refuse (length e.detached_signature == 0) missing_signature
  refuse (not (length e.detached_signature == signature_size)) invalid_signature
  refuse (length e.payload == 0) (malformed (text "payload is required"))
  refuse (ltb_ℤ (pos 0) max_payload_bytes && ltb_ℤ max_payload_bytes (pos (length e.payload)))
      oversized_payload

-- ttl <= 0 means five minutes.
abbrev pub effective_ttl : Duration → Duration
effective_ttl ttl = if ltb_ℤ (pos 0) ttl then ttl else default_ttl

-- The checks on the time of signing. The clock is read twice.
unfoldable pub check_time : Duration → Time → Time → SignedEnvelope → Result (Unit {0})
check_time ttl now now' e = do
  refuse (is_zero e.signed_at) (malformed (text "signed_at is required"))
  refuse (after e.signed_at (now +ℤ default_clock_skew)) future_payload
  refuse (ltb_ℤ (effective_ttl ttl) (sub now' e.signed_at)) expired_payload

find_device : (Str → Option Device) → Str → Result Device
find_device lookup_device device_id = elim (lookup_device device_id) [
  | none ↦ err unauthorized
  | some device ↦ ok device
]

-- The public key id must match when either side sets it.
unfoldable pub check_key_id : Device → SignedEnvelope → Result (Unit {0})
check_key_id device e =
    if not (is_empty device.public_key_id) || not (is_empty e.public_key_id)
    then refuse
        (is_empty device.public_key_id
          || is_empty e.public_key_id
          || not (str_eq device.public_key_id e.public_key_id))
        unauthorized
    else ok tt

module _ (P : Platform) where
  unfoldable pub check_hash : SignedEnvelope → Result (Unit {0})
  check_hash e =
      refuse
        (is_empty e.payload_sha256_hex
          || not (str_eq e.payload_sha256_hex (hash_payload P e.payload)))
        (malformed (text "payload hash mismatch"))

  unfoldable pub check_signature : Device → SignedEnvelope → Result (Unit {0})
  check_signature device e = do
    canonical ← canonical_bytes P e
    refuse (not (length device.public_key == public_key_size)) panic
    refuse (not (P.verify device.public_key canonical e.detached_signature)) invalid_signature

  -- Verify, up to the call of the replay guard.
  unfoldable pub authenticate :
      (Str → Option Device) → ℤ → Duration → Time → Time → SignedEnvelope → Str → Result (Unit {0})
  unfolding find_device
  authenticate lookup_device max_payload_bytes ttl now now' e peer = do
    check_fields max_payload_bytes e
    check_time ttl now now' e
    check_hash e
    device ← find_device lookup_device e.device_id
    check_key_id device e
    bind_client_cert device e peer
    check_signature device e

  module _ (G : ReplayGuard) where
    record_frame : SignedEnvelope → Verifier G → G.State → Option Error × Verifier G
    record_frame e v g =
        let (refusal, g') = G.check_and_record e.device_id e.frame_id e.sequence g in
        (refusal, record v { replay_guard = some g' })

    guarded : Result (Unit {0}) → SignedEnvelope → Verifier G → G.State → Option Error × Verifier G
    guarded (err failure) e v g = (some failure, v)
    guarded (ok _) e v g = record_frame e v g

    -- Verify
    unfoldable pub verify :
        Time → Time → SignedEnvelope → Str → Verifier G → Option Error × Verifier G
    unfolding record_frame guarded
    verify now now' e peer v = elim v.registry [
      | none ↦ (some (plain (text "auth verifier is missing required dependencies")), v)
      | some lookup_device ↦ elim v.replay_guard [
        | none ↦ (some (plain (text "auth verifier is missing required dependencies")), v)
        | some g ↦
            guarded (authenticate lookup_device v.max_payload_bytes v.ttl now now' e peer) e v g
      ]
    ]
