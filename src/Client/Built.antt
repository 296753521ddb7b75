-- ===== src/Client/Built.antt =====
-- What the client builds, the server takes: its checks pass, and its payload agrees with it.
use golem_harness.Base.{Str, ◌≡◌, sym, ap, ◌∙◌, inl, inr, Option, some, arith, Option-cases}
use golem_harness.Clock.{Time}
use golem_harness.Errors.{ok}
use golem_harness.Platform.{Platform}
use golem_harness.Trajectory.{RawFrame}
use golem_harness.Signing.{SignedEnvelope, sign_envelope}
use golem_harness.Signing.Laws.{sign_envelope-IsSigned}
use golem_harness.Ingest.Bind.{Agrees}
use golem_harness.Client.{envelope_of, build_signed_envelope_with_key}

module _ (P : Platform) (marshal : RawFrame → Option Str) (key : Str) (at : Time) (frame : RawFrame)
    (key_id cert : Str) (s : SignedEnvelope) where
  -- What is built is the signed envelope of the frame and of its JSON text.
  built_from :
      build_signed_envelope_with_key P marshal key at frame key_id cert ≡ ok s
      → (payload : Str) × (marshal frame ≡ some payload)
        × (sign_envelope P key (envelope_of P marshal at frame key_id cert payload) ≡ ok s)
  unfolding build_signed_envelope_with_key
  built_from h = elim (Option-cases (marshal frame)) [
    | inl e ↦ absurd (ground arith)
    | inr (payload, e) ↦ (payload, e, ground arith)
  ]

  -- The payload of a built envelope decodes to the frame, and the frame agrees with the envelope,
  -- if decoding takes back the encoding of the frame.
  pub built-Agrees :
      (unmarshal : Str → Option RawFrame)
      → ((payload : Str) → marshal frame ≡ some payload → unmarshal payload ≡ some frame)
      → build_signed_envelope_with_key P marshal key at frame key_id cert ≡ ok s
      → (unmarshal s.payload ≡ some frame) × Agrees s frame
  built-Agrees unmarshal decodes h =
      let (payload, m, signed) = built_from h in
      let g = sign_envelope-IsSigned P key _ s signed in
      let kept = g.kept in
      (
        ap unmarshal (ap (λ x. x.payload) kept) ∙ decodes payload m,
        record {
          protocol_version = inr (sym (ap (λ x. x.protocol_version) kept));
          trajectory_id = inr (sym (ap (λ x. x.trajectory_id) kept));
          frame_id = inr (sym (ap (λ x. x.frame_id) kept));
          device_id = inr (sym (ap (λ x. x.device_id) kept));
          sequence = sym (ap (λ x. x.sequence) kept);
        },
      )

  -- It has the time at which it was signed.
  pub built-signed_at :
      build_signed_envelope_with_key P marshal key at frame key_id cert ≡ ok s → s.signed_at ≡ at
  built-signed_at h =
      let (payload, m, signed) = built_from h in
      ap (λ x. x.signed_at) (sign_envelope-IsSigned P key _ s signed).kept
