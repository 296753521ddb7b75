-- ===== src/Tests/SigningTests.antt =====
-- Signing and canonical bytes on the test envelope.
use golem_harness.Base.{◌<◌, ◌^◌, Str, text, ◌≡◌, refl, [], ◌∷◌, ◌++◌, arith}
use golem_harness.Errors.{ok, err, plain}
use golem_harness.Platform.{newline, hex_encode, hex_encode-IsLine}
use golem_harness.Signing.{
  signature_alg_ed25519, hash_payload, layout, canonical_bytes, sign_envelope,
}
use golem_harness.Signing.Canonical.{HasLines, SameSigned, canonical_bytes_injective}
use golem_harness.Signing.Laws.{layout_collision}
use golem_harness.Tests.Toy.{toy, toy-IsLawful, checksum}
use golem_harness.Tests.Envelopes.{unsigned, hashed_envelope, signed}

lines_of : (signature : Str) → HasLines (record hashed_envelope { detached_signature = signature })
unfolding signature_alg_ed25519 hash_payload
lines_of signature = record {
  protocol_version = ground arith;
  device_id = ground arith;
  trajectory_id = ground arith;
  frame_id = ground arith;
  payload_sha256_hex = hex_encode-IsLine (checksum (text "{}"));
  signature_alg = ground arith;
  public_key_id = tt;
  client_cert_fingerprint_sha256 = tt;
}

canonical_hashed : canonical_bytes toy hashed_envelope ≡ ok (layout toy hashed_envelope)
unfolding canonical_bytes signature_alg_ed25519 hash_payload hex_encode
canonical_hashed = refl

canonical_signed : canonical_bytes toy signed ≡ ok (layout toy hashed_envelope)
unfolding canonical_bytes signature_alg_ed25519 hash_payload hex_encode layout
canonical_signed = refl

small : 7 < 2 ^ 64
small = omega arith

canonical_bytes_injective_example : SameSigned hashed_envelope signed
canonical_bytes_injective_example =
    canonical_bytes_injective toy toy-IsLawful hashed_envelope signed small small (lines_of [])
      (lines_of signed.detached_signature) canonical_hashed canonical_signed

layout_collision_example :
    layout toy (record signed {
      trajectory_id = text "t";
      frame_id = text "x" ++ (newline ∷ (text "frame_id=" ++ text "y"));
    })
    ≡ layout toy (record signed {
      trajectory_id = text "t" ++ (newline ∷ (text "frame_id=" ++ text "x"));
      frame_id = text "y";
    })
layout_collision_example = layout_collision toy signed (text "t") (text "x") (text "y")

-- A key of the wrong size is refused.
short_key :
    sign_envelope toy (text "short") unsigned
    ≡ err (plain (text "ed25519 private key must be 64 bytes"))
unfolding sign_envelope text
short_key = refl
