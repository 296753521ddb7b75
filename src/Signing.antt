-- ===== src/Signing.antt =====
-- server/pkg/signing/signing.go: the signed envelope, its canonical bytes, hashes and signing.
pub mod Canonical
pub mod Laws
pub mod Proto
use golem_harness.Base.{
  ℕ, Str, text, is_empty, str_eq, Bool, ◌||◌, not, ◌++◌, ◌∷◌, length, ◌==◌, if◌then◌else◌,
}
use golem_harness.Clock.{Time}
use golem_harness.Errors.{Error, Result, ok, err, malformed, plain, ◌>>=◌, ◌>>◌, refuse}
use golem_harness.Platform.{Platform, hex_encode, private_key_size, newline}
use golem_harness.Decimal.{decimal}

-- type SignedEnvelope
pub record SignedEnvelope : Type 0 where
  pub protocol_version : Str
  pub device_id : Str
  pub trajectory_id : Str
  pub frame_id : Str
  pub sequence : ℕ
  pub signed_at : Time
  pub payload : Str
  pub detached_signature : Str
  pub payload_sha256_hex : Str
  pub signature_alg : Str
  pub public_key_id : Str
  pub client_cert_fingerprint_sha256 : Str

-- SignatureAlgEd25519
unfoldable pub signature_alg_ed25519 : Str
unfolding text
signature_alg_ed25519 = text "Ed25519"

-- "key=" + value + "\n" + rest
abbrev pub line : Str → Str → Str → Str
line key value rest = key ++ (value ++ (newline ∷ rest))

-- The four identifiers that must not be empty.
abbrev pub lacks_ids : SignedEnvelope → Bool
lacks_ids e =
    is_empty e.protocol_version
    || is_empty e.device_id
    || is_empty e.trajectory_id
    || is_empty e.frame_id

-- HashPayload, SafeHash
unfoldable pub hash_payload : Platform → Str → Str
hash_payload P payload = hex_encode (P.sha256 payload)

unfoldable pub safe_hash : Platform → Str → Str
safe_hash P value = hex_encode (P.sha256 value)

module _ (P : Platform) where
  -- The string `prefix` of CanonicalBytes and the payload behind it.
  unfoldable pub layout : SignedEnvelope → Str
  layout e =
      text "golem-harness-signature-v2"
      ++ (newline
          ∷ line (text "protocol_version=") e.protocol_version (
              line (text "device_id=") e.device_id (
                line (text "trajectory_id=") e.trajectory_id (
                  line (text "frame_id=") e.frame_id (
                    line (text "sequence=") (decimal e.sequence) (
                      line (text "signed_at=") (P.format_time e.signed_at) (
                        line (text "payload_sha256_hex=") e.payload_sha256_hex (
                          line (text "signature_alg=") e.signature_alg (
                            line (text "public_key_id=") e.public_key_id (
                              line (text "client_cert_fingerprint_sha256=")
                                e.client_cert_fingerprint_sha256 (newline ∷ e.payload)))))))))))

  -- CanonicalBytes
  unfoldable pub canonical_bytes : SignedEnvelope → Result Str
  canonical_bytes e = do
    refuse (lacks_ids e) (malformed (text "canonical envelope fields are required"))
    refuse (is_empty e.payload_sha256_hex) (malformed (text "payload hash is required"))
    refuse (is_empty e.signature_alg) (malformed (text "signature_alg is required"))
    ok (layout e)

  -- if envelope.SignatureAlg == "" { envelope.SignatureAlg = SignatureAlgEd25519 }
  abbrev pub with_alg : SignedEnvelope → SignedEnvelope
  with_alg e =
      if is_empty e.signature_alg then record e { signature_alg = signature_alg_ed25519 } else e

  -- envelope.PayloadSHA256Hex = HashPayload(envelope.Payload)
  abbrev pub with_hash : SignedEnvelope → SignedEnvelope
  with_hash e = record e { payload_sha256_hex = hash_payload P e.payload }

  -- SignEnvelope
  unfoldable pub sign_envelope : Str → SignedEnvelope → Result SignedEnvelope
  sign_envelope private_key e0 = do
    refuse (not (length private_key == private_key_size))
        (plain (text "ed25519 private key must be 64 bytes"))
    let e1 = with_alg e0
    refuse (not (str_eq e1.signature_alg signature_alg_ed25519))
        (malformed (text "unsupported signature algorithm"))
    let e2 = with_hash e1
    canonical ← canonical_bytes e2
    ok (record e2 { detached_signature = P.sign private_key canonical })
