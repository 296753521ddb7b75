-- ===== src/Signing/Proto.antt =====
-- server/pkg/signing/proto.go: the wire message of an envelope and the wire enum of a decision.
-- The generated message types are plain records here. `timestamppb` is a parameter.
use golem_harness.Base.{ℕ, Str, text, ◌≡◌, refl, Option, none, some, arith, if◌then◌else◌}
use golem_harness.Clock.{Time, is_zero}
use golem_harness.Errors.{Result, ok, err, malformed}
use golem_harness.Trajectory.{Decision, accept, drop, quarantine, other}
use golem_harness.Signing.{SignedEnvelope}

-- timestamppb.New(t.UTC()), ts.AsTime().UTC()
pub record Timestamps : Type 1 where
  pub Timestamp : Type 0
  pub new : Time → Timestamp
  pub as_time : Timestamp → Time

-- The wire enum. Any number outside the schema is `unknown`.
pub data PbDecision : Type 0 where
  unspecified pb_accept pb_drop pb_quarantine : PbDecision
  unknown : ℕ → PbDecision

-- DecisionToProto
unfoldable pub decision_to_proto : Decision → PbDecision
decision_to_proto accept = pb_accept
decision_to_proto drop = pb_drop
decision_to_proto quarantine = pb_quarantine
decision_to_proto (other s) = unspecified

-- DecisionFromProto
unfoldable pub decision_from_proto : PbDecision → Decision
unfolding text
decision_from_proto pb_accept = accept
decision_from_proto pb_drop = drop
decision_from_proto pb_quarantine = quarantine
decision_from_proto unspecified = other (text "")
decision_from_proto (unknown n) = other (text "")

module _ (T : Timestamps) where
  -- *golemv1.SignatureEnvelope
  pub record PbEnvelope : Type 0 where
    pub protocol_version : Str
    pub device_id : Str
    pub trajectory_id : Str
    pub frame_id : Str
    pub sequence : ℕ
    pub signed_at : Option T.Timestamp
    pub canonical_payload : Str
    pub detached_signature : Str
    pub payload_sha256_hex : Str
    pub signature_alg : Str
    pub public_key_id : Str
    pub client_cert_fingerprint_sha256 : Str

  envelope_at : PbEnvelope → Time → SignedEnvelope
  envelope_at pb t = record {
    protocol_version = pb.protocol_version;
    device_id = pb.device_id;
    trajectory_id = pb.trajectory_id;
    frame_id = pb.frame_id;
    sequence = pb.sequence;
    signed_at = t;
    payload = pb.canonical_payload;
    detached_signature = pb.detached_signature;
    payload_sha256_hex = pb.payload_sha256_hex;
    signature_alg = pb.signature_alg;
    public_key_id = pb.public_key_id;
    client_cert_fingerprint_sha256 = pb.client_cert_fingerprint_sha256;
  }

  -- EnvelopeFromProto; `none` is the nil message
  unfoldable pub envelope_from_proto : Option PbEnvelope → Result SignedEnvelope
  unfolding envelope_at
  envelope_from_proto none = err (malformed (text "missing envelope"))
  envelope_from_proto (some pb) = elim pb.signed_at [
    | none ↦ err (malformed (text "signed_at is required"))
    | some ts ↦ ok (envelope_at pb (T.as_time ts))
  ]

  -- EnvelopeToProto
  unfoldable pub envelope_to_proto : SignedEnvelope → PbEnvelope
  envelope_to_proto e = record {
    protocol_version = e.protocol_version;
    device_id = e.device_id;
    trajectory_id = e.trajectory_id;
    frame_id = e.frame_id;
    sequence = e.sequence;
    signed_at = if is_zero e.signed_at then none else some (T.new e.signed_at);
    canonical_payload = e.payload;
    detached_signature = e.detached_signature;
    payload_sha256_hex = e.payload_sha256_hex;
    signature_alg = e.signature_alg;
    public_key_id = e.public_key_id;
    client_cert_fingerprint_sha256 = e.client_cert_fingerprint_sha256;
  }

  -- An envelope sent over the wire arrives unchanged, or as the malformed-envelope error if its
  -- time is the zero time, where the timestamp of its time reads back as that time.
  pub envelope_round_trip :
      (e : SignedEnvelope)
      → T.as_time (T.new e.signed_at) ≡ e.signed_at
      → envelope_from_proto (some (envelope_to_proto e))
        ≡ (if is_zero e.signed_at then err (malformed (text "signed_at is required")) else ok e)
  unfolding envelope_from_proto envelope_to_proto
  envelope_round_trip e h = ground arith

-- A decision sent over the wire arrives unchanged, and any text that is none of the three
-- decisions arrives as the empty text.
pub decision_round_trip :
    (d : Decision)
    → decision_from_proto (decision_to_proto d) ≡ elim d [
      | other s ↦ other (text "")
      | accept ↦ accept
      | drop ↦ drop
      | quarantine ↦ quarantine
    ]
unfolding decision_from_proto decision_to_proto
decision_round_trip accept = refl
decision_round_trip drop = refl
decision_round_trip quarantine = refl
decision_round_trip (other s) = refl
