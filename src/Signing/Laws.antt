-- ===== src/Signing/Laws.antt =====
-- Signing and canonical bytes: which envelopes are refused, what a signed envelope holds, and a
-- collision between envelopes whose identifiers hold line feeds.
use mathlib.Core.List.{append_assoc}
use golem_harness.Base.{Str, text, is_empty, str_eq_iff, ◌≡◌, false, ◌++◌, ◌∷◌, arith}
use golem_harness.Errors.{ok}
use golem_harness.Platform.{Platform, newline}
use golem_harness.Signing.{
  SignedEnvelope, signature_alg_ed25519, lacks_ids, hash_payload, layout, canonical_bytes,
  sign_envelope,
}

module _ (P : Platform) where
  -- The canonical bytes exist for an envelope whose four identifiers, payload hash and
  -- signature algorithm are not empty.
  pub canonical_bytes_total :
      (e : SignedEnvelope)
      → lacks_ids e ≡ false
      → is_empty e.payload_sha256_hex ≡ false
      → is_empty e.signature_alg ≡ false
      → canonical_bytes P e ≡ ok (layout P e)
  unfolding canonical_bytes
  canonical_bytes_total e ids hash alg = ground arith

  -- An envelope with trajectory id t and frame id x, line feed, frame_id=, y, and the one with
  -- trajectory id t, line feed, frame_id=, x and frame id y have the same signed bytes.
  pub layout_collision :
      (e : SignedEnvelope) (t x y : Str)
      → layout P
          (record e { trajectory_id = t; frame_id = x ++ (newline ∷ (text "frame_id=" ++ y)) })
        ≡ layout P
            (record e { trajectory_id = t ++ (newline ∷ (text "frame_id=" ++ x)); frame_id = y })
  unfolding layout
  layout_collision e t x y = simp append_assoc

  -- What a signed envelope keeps of the one it was made from, and what it adds.
  pub record IsSigned (private_key : Str) (e s : SignedEnvelope) : Type 0 where
    pub kept : s ≡ record e {
      signature_alg = s.signature_alg;
      payload_sha256_hex = s.payload_sha256_hex;
      detached_signature = s.detached_signature;
    }
    pub alg : s.signature_alg ≡ signature_alg_ed25519
    pub hash : s.payload_sha256_hex ≡ hash_payload P e.payload
    pub canonical : canonical_bytes P s ≡ ok (layout P s)
    pub signature : s.detached_signature ≡ P.sign private_key (layout P s)

  -- What SignEnvelope returns is the given envelope with the algorithm, the payload's hash and the
  -- signature of its own canonical bytes filled in.
  pub sign_envelope-IsSigned :
      (private_key : Str) (e s : SignedEnvelope)
      → sign_envelope P private_key e ≡ ok s
      → IsSigned private_key e s
  unfolding sign_envelope canonical_bytes layout
  sign_envelope-IsSigned private_key e s h = record {
    kept = ground arith;
    alg = ground (arith, str_eq_iff e.signature_alg signature_alg_ed25519);
    hash = ground arith;
    canonical = ground arith;
    signature = ground arith;
  }
