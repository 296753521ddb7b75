-- ===== src/Signing/Canonical.antt =====
-- The canonical bytes determine every signed field, if no text field holds a line feed.
use mathlib.Core.List.{append_cancel_left}
use golem_harness.Base.{ℕ, ◌^◌, ◌<◌, Str, text, ◌≡◌, refl, sym, ◌∙◌, [], ◌∷◌, ◌++◌, arith}
use golem_harness.Errors.{ok}
use golem_harness.Platform.{Platform, IsLawful, IsLine, newline}
use golem_harness.Decimal.{decimal-IsLine, decimal_injective}
use golem_harness.Signing.{SignedEnvelope, line, layout, canonical_bytes}

-- Two texts without a line feed that are each followed by one are told apart from what follows.
split_line :
    (v w : Str) {r s : Str}
    → IsLine v
    → IsLine w
    → v ++ (newline ∷ r) ≡ w ++ (newline ∷ s)
    → (v ≡ w) × (r ≡ s)
split_line [] [] hv hw e = (refl, cc)
split_line [] (d ∷ w) hv hw e = absurd (hw.0 (cc))
split_line (c ∷ v) [] hv hw e = absurd (hv.0 (cc))
split_line (c ∷ v) (d ∷ w) {r} {s} hv hw e =
    let q : (v ≡ w) × (r ≡ s) = split_line v w hv.1 hw.1 (cc) in (cc (q.0), q.1)

cons_injective : {c : ℕ} {r s : Str} → ◌≡◌ {A = Str} (c ∷ r) (c ∷ s) → r ≡ s
cons_injective e = cc

split_field :
    (key v w : Str) {r s : Str}
    → IsLine v
    → IsLine w
    → line key v r ≡ line key w s
    → (v ≡ w) × (r ≡ s)
split_field key v w hv hw e = split_line v w hv hw (append_cancel_left key _ _ e)

-- What comes back without an error is the layout.
pub layout-canonical_bytes :
    (P : Platform) (e : SignedEnvelope) {bytes : Str}
    → canonical_bytes P e ≡ ok bytes
    → bytes ≡ layout P e
unfolding canonical_bytes
layout-canonical_bytes P e h = ground arith

-- No text field of the signed prefix holds a line feed.
pub record HasLines (e : SignedEnvelope) : Type 0 where
  pub protocol_version : IsLine e.protocol_version
  pub device_id : IsLine e.device_id
  pub trajectory_id : IsLine e.trajectory_id
  pub frame_id : IsLine e.frame_id
  pub payload_sha256_hex : IsLine e.payload_sha256_hex
  pub signature_alg : IsLine e.signature_alg
  pub public_key_id : IsLine e.public_key_id
  pub client_cert_fingerprint_sha256 : IsLine e.client_cert_fingerprint_sha256

-- The two envelopes agree on all that is signed.
pub record SameSigned (a b : SignedEnvelope) : Type 0 where
  pub protocol_version : a.protocol_version ≡ b.protocol_version
  pub device_id : a.device_id ≡ b.device_id
  pub trajectory_id : a.trajectory_id ≡ b.trajectory_id
  pub frame_id : a.frame_id ≡ b.frame_id
  pub sequence : a.sequence ≡ b.sequence
  pub signed_at : a.signed_at ≡ b.signed_at
  pub payload_sha256_hex : a.payload_sha256_hex ≡ b.payload_sha256_hex
  pub signature_alg : a.signature_alg ≡ b.signature_alg
  pub public_key_id : a.public_key_id ≡ b.public_key_id
  pub client_cert_fingerprint_sha256 :
      a.client_cert_fingerprint_sha256 ≡ b.client_cert_fingerprint_sha256
  pub payload : a.payload ≡ b.payload

module _ (P : Platform) (L : IsLawful P) where
  layout_injective :
      (a b : SignedEnvelope)
      → a.sequence < 2 ^ 64
      → b.sequence < 2 ^ 64
      → HasLines a
      → HasLines b
      → layout P a ≡ layout P b
      → SameSigned a b
  unfolding layout
  layout_injective a b na nb ha hb e =
      let e1 = cons_injective (append_cancel_left (text "golem-harness-signature-v2") _ _ e) in
      let (version, e2) =
        split_field _ a.protocol_version b.protocol_version ha.protocol_version hb.protocol_version
          e1 in
      let (device, e3) = split_field _ a.device_id b.device_id ha.device_id hb.device_id e2 in
      let (trajectory, e4) =
        split_field _ a.trajectory_id b.trajectory_id ha.trajectory_id hb.trajectory_id e3 in
      let (frame, e5) = split_field _ a.frame_id b.frame_id ha.frame_id hb.frame_id e4 in
      let (number, e6) =
        split_field _ _ _ (decimal-IsLine a.sequence) (decimal-IsLine b.sequence) e5 in
      let (time, e7) =
        split_field _ _ _ (L.format_time-IsLine a.signed_at) (L.format_time-IsLine b.signed_at)
          e6 in
      let (hash, e8) = split_field _ _ _ ha.payload_sha256_hex hb.payload_sha256_hex e7 in
      let (alg, e9) = split_field _ _ _ ha.signature_alg hb.signature_alg e8 in
      let (key, e10) = split_field _ _ _ ha.public_key_id hb.public_key_id e9 in
      let (cert, rest) =
        split_field _ _ _ ha.client_cert_fingerprint_sha256 hb.client_cert_fingerprint_sha256 e10 in
      record {
        protocol_version = version;
        device_id = device;
        trajectory_id = trajectory;
        frame_id = frame;
        sequence = decimal_injective a.sequence b.sequence na nb number;
        signed_at = L.format_time_injective a.signed_at b.signed_at time;
        payload_sha256_hex = hash;
        signature_alg = alg;
        public_key_id = key;
        client_cert_fingerprint_sha256 = cert;
        payload = cons_injective rest;
      }

  -- Two envelopes with the same canonical bytes agree on every signed field, if both have
  -- sequences of 64 bits and no line feed in a text field.
  pub canonical_bytes_injective :
      (a b : SignedEnvelope) {bytes : Str}
      → a.sequence < 2 ^ 64
      → b.sequence < 2 ^ 64
      → HasLines a
      → HasLines b
      → canonical_bytes P a ≡ ok bytes
      → canonical_bytes P b ≡ ok bytes
      → SameSigned a b
  canonical_bytes_injective a b na nb ha hb ea eb =
      layout_injective a b na nb ha hb
        (sym (layout-canonical_bytes P a ea) ∙ layout-canonical_bytes P b eb)
