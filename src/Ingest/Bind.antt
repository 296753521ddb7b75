-- ===== src/Ingest/Bind.antt =====
-- server/internal/ingest/service.go: the identifiers of a payload against those of its envelope.
use mathlib.Core.Path.{subst}
use golem_harness.Base.{
  Str, is_empty, ◌≡◌, refl, sym, ap, ◌∙◌, ◌↔◌, ◌⊎◌, inl, inr, ◌||◌, not, Option, none, some, [],
  ◌∷◌, arith, str_eq, str_eq_iff, ◌==◌, if◌then◌else◌,
}
use golem_harness.Signing.{SignedEnvelope}
use golem_harness.Trajectory.{RawFrame}

abbrev pub or_default : Str → Str → Str
or_default s d = if is_empty s then d else s

-- The empty identifiers of the frame, filled in from the envelope.
abbrev pub filled : SignedEnvelope → RawFrame → RawFrame
filled e f = record f {
  protocol_version = or_default f.protocol_version e.protocol_version;
  trajectory_id = or_default f.trajectory_id e.trajectory_id;
  frame_id = or_default f.frame_id e.frame_id;
  device = record f.device { device_id = or_default f.device.device_id e.device_id };
}

-- bindEnvelopeToFrame; `none` is its error
unfoldable pub bind_envelope_to_frame : SignedEnvelope → RawFrame → Option RawFrame
bind_envelope_to_frame e f0 =
    let f = filled e f0 in
    if not (str_eq f.protocol_version e.protocol_version)
      || not (str_eq f.trajectory_id e.trajectory_id)
      || not (str_eq f.frame_id e.frame_id)
      || not (f.sequence == e.sequence)
      || not (str_eq f.device.device_id e.device_id)
    then none
    else some f

-- Each identifier of the payload is absent or the envelope's, and the sequence is the envelope's.
pub record Agrees (e : SignedEnvelope) (f : RawFrame) : Type 0 where
  pub protocol_version : (f.protocol_version ≡ []) ⊎ (f.protocol_version ≡ e.protocol_version)
  pub trajectory_id : (f.trajectory_id ≡ []) ⊎ (f.trajectory_id ≡ e.trajectory_id)
  pub frame_id : (f.frame_id ≡ []) ⊎ (f.frame_id ≡ e.frame_id)
  pub device_id : (f.device.device_id ≡ []) ⊎ (f.device.device_id ≡ e.device_id)
  pub sequence : f.sequence ≡ e.sequence

-- The frame has the envelope's identifiers.
pub record IsBound (e : SignedEnvelope) (f : RawFrame) : Type 0 where
  pub protocol_version : f.protocol_version ≡ e.protocol_version
  pub trajectory_id : f.trajectory_id ≡ e.trajectory_id
  pub frame_id : f.frame_id ≡ e.frame_id
  pub device_id : f.device.device_id ≡ e.device_id
  pub sequence : f.sequence ≡ e.sequence

module _ (e : SignedEnvelope) (f : RawFrame) where
  abbrev bound : RawFrame
  bound = filled e f

  bind→IsBound :
      (f' : RawFrame) → bind_envelope_to_frame e f ≡ some f' → (f' ≡ bound) × IsBound e bound
  unfolding bind_envelope_to_frame
  bind→IsBound f' h = (
    ground arith,
    record {
      protocol_version = ground (arith, str_eq_iff bound.protocol_version e.protocol_version);
      trajectory_id = ground (arith, str_eq_iff bound.trajectory_id e.trajectory_id);
      frame_id = ground (arith, str_eq_iff bound.frame_id e.frame_id);
      device_id = ground (arith, str_eq_iff bound.device.device_id e.device_id);
      sequence = ground arith;
    },
  )

  or_default-cases : (s d : Str) → or_default s d ≡ d → (s ≡ []) ⊎ (s ≡ d)
  or_default-cases [] d h = inl refl
  or_default-cases (c ∷ s) d h = inr h

  pub Agrees→bind : Agrees e f → bind_envelope_to_frame e f ≡ some bound
  unfolding bind_envelope_to_frame
  Agrees→bind a = ground (
    arith,
    str_eq_iff bound.protocol_version e.protocol_version,
    str_eq_iff bound.trajectory_id e.trajectory_id,
    str_eq_iff bound.frame_id e.frame_id,
    str_eq_iff bound.device.device_id e.device_id,
  )

  -- A payload is bound exactly if each of its identifiers is absent or the envelope's and its
  -- sequence is the envelope's; the frame then has all of the envelope's identifiers, and the
  -- payload's other fields.
  pub bind_exact :
      (f' : RawFrame)
      → (bind_envelope_to_frame e f ≡ some f') ↔ (Agrees e f × IsBound e f' × (f' ≡ bound))
  bind_exact f' = (
    λ h.
        let (same, b) = bind→IsBound f' h in
        (
          record {
            protocol_version =
                or_default-cases f.protocol_version e.protocol_version b.protocol_version;
            trajectory_id = or_default-cases f.trajectory_id e.trajectory_id b.trajectory_id;
            frame_id = or_default-cases f.frame_id e.frame_id b.frame_id;
            device_id = or_default-cases f.device.device_id e.device_id b.device_id;
            sequence = b.sequence;
          },
          subst (IsBound e) (sym same) b,
          same,
        ),
    λ (a, b, same). Agrees→bind a ∙ ap some (sym same),
  )
