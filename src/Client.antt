-- ===== src/Client.antt =====
-- server/pkg/client/client.go, server/internal/ingest/convert.go and grpc_server.go: the client, the
-- messages on the wire and the handler that stands before the service. encoding/json and the
-- connection are parameters.
pub mod Wire
pub mod Built
pub mod Accepted
use golem_harness.Base.{Str, text, Option, none, some, List, []}
use golem_harness.Clock.{Time}
use golem_harness.Errors.{Error, malformed, plain, Result, ok, err, ◌>>=◌}
use golem_harness.Platform.{Platform}
use golem_harness.Trajectory.{RawFrame, Decision}
use golem_harness.Signing.{SignedEnvelope, signature_alg_ed25519, sign_envelope}
use golem_harness.Signing.Proto.{
  Timestamps, PbDecision, unspecified, PbEnvelope, envelope_from_proto, envelope_to_proto,
  decision_to_proto, decision_from_proto,
}
use golem_harness.Ingest.Calls.{Response, Reply, response, failure, crash}
use golem_harness.Ingest.Codes.{Status, invalid_argument, failed_precondition, safe_reason}

-- *golemv1.IngestFrameResponse
pub record PbResponse : Type 0 where
  pub request_id : Str
  pub decision : PbDecision
  pub reason_codes : List Str
  pub sanitizer_version : Str

-- ResponseToProto; `none` is the nil response
unfoldable pub response_to_proto : Option Response → PbResponse
response_to_proto none = record {
  request_id = [];
  decision = unspecified;
  reason_codes = [];
  sanitizer_version = [];
}
response_to_proto (some r) = record {
  request_id = r.request_id;
  decision = decision_to_proto r.decision;
  reason_codes = r.reason_codes;
  sanitizer_version = r.sanitizer_version;
}

-- ResponseFromProto, of the server and of the client; `none` is the nil message
unfoldable pub response_from_proto : Option PbResponse → Response
response_from_proto none = record {
  request_id = [];
  decision = Decision.other [];
  reason_codes = [];
  sanitizer_version = [];
}
response_from_proto (some pb) = record {
  request_id = pb.request_id;
  decision = decision_from_proto pb.decision;
  reason_codes = pb.reason_codes;
  sanitizer_version = pb.sanitizer_version;
}

module _ (P : Platform) (marshal : RawFrame → Option Str) where
  -- The envelope of a frame before it is signed.
  abbrev pub envelope_of : Time → RawFrame → Str → Str → Str → SignedEnvelope
  envelope_of signed_at frame public_key_id cert payload = record {
    protocol_version = frame.protocol_version;
    device_id = frame.device.device_id;
    trajectory_id = frame.trajectory_id;
    frame_id = frame.frame_id;
    sequence = frame.sequence;
    signed_at = signed_at;
    payload = payload;
    detached_signature = [];
    payload_sha256_hex = [];
    signature_alg = signature_alg_ed25519;
    public_key_id = public_key_id;
    client_cert_fingerprint_sha256 = cert;
  }

  -- BuildSignedEnvelopeWithKey
  unfoldable pub build_signed_envelope_with_key :
      Str → Time → RawFrame → Str → Str → Result SignedEnvelope
  build_signed_envelope_with_key private_key signed_at frame public_key_id cert =
      elim (marshal frame) [
        | none ↦ err (plain (text "marshal frame"))
        | some payload ↦
            sign_envelope P private_key (envelope_of signed_at frame public_key_id cert payload)
      ]

  -- BuildSignedEnvelope
  unfoldable pub build_signed_envelope : Str → Time → RawFrame → Result SignedEnvelope
  build_signed_envelope private_key signed_at frame =
      build_signed_envelope_with_key private_key signed_at frame [] []

-- What comes back over the wire: a response, a status, or nothing after a crash.
pub data WireReply : Type 0 where
  wire_response : PbResponse → WireReply
  wire_failure : Status → WireReply
  lost : WireReply

abbrev pub wire_of : Reply → WireReply
wire_of (response r) = wire_response (response_to_proto (some r))
wire_of (failure status) = wire_failure status
wire_of crash = lost

-- What a call of the client's IngestFrame returns.
pub data ClientReply : Type 0 where
  answered : Response → ClientReply
  refused : Status → ClientReply
  no_envelope no_reply : ClientReply

abbrev pub client_of : WireReply → ClientReply
client_of (wire_response pb) = answered (response_from_proto (some pb))
client_of (wire_failure status) = refused status
client_of lost = no_reply

module _ (T : Timestamps) {State : Type 0} (ingest : SignedEnvelope → State → Reply × State) where
  -- The service's call, for an envelope that was converted.
  abbrev converted : Result SignedEnvelope → State → WireReply × State
  converted (err failed) s =
      (wire_failure (record { code = invalid_argument; message = safe_reason failed }), s)
  converted (ok e) s = let (reply, s') = ingest e s in (wire_of reply, s')

  -- GRPCServer.IngestFrame. The envelope `none` is a nil request or one without an envelope, and the
  -- state `none` a server without a service.
  unfoldable pub grpc_ingest_frame : Option (PbEnvelope T) → Option State → WireReply × Option State
  grpc_ingest_frame none s =
      (wire_failure (record { code = invalid_argument; message = text "missing envelope" }), s)
  grpc_ingest_frame (some pb) none = (
    wire_failure
        (record { code = failed_precondition; message = text "ingest service is not configured" }),
    none,
  )
  grpc_ingest_frame (some pb) (some s) =
      let (reply, s') = converted (envelope_from_proto T (some pb)) s in (reply, some s')

  -- IngestFrame of the client, over a connection that delivers the message.
  unfoldable pub client_ingest_frame :
      Option SignedEnvelope → Option State → ClientReply × Option State
  client_ingest_frame none s = (no_envelope, s)
  client_ingest_frame (some e) s =
      let (reply, s') = grpc_ingest_frame (some (envelope_to_proto T e)) s in (client_of reply, s')
