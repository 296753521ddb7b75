-- ===== src/Ingest/Calls.antt =====
-- server/internal/ingest/service.go: what goes into a call of the service and what comes out of it.
use golem_harness.Base.{ℕ, Str, text, Bool, List, [], ◌∷◌, ◌++◌, take}
use golem_harness.Clock.{Time}
use golem_harness.Platform.{Platform, hex_encode}
use golem_harness.Signing.{SignedEnvelope, safe_hash}
use golem_harness.Trajectory.{Decision, accept, drop, quarantine, other, RawFrame, SanitizedFrame}
use golem_harness.Sanitize.Process.{Processed}
use golem_harness.Ingest.Codes.{Status}

-- interface Sanitizer
pub record Sanitizer : Type 1 where
  pub State : Type 0
  pub process : RawFrame → State → State × Processed

-- interface storage.Sink; the answer is whether the write failed
pub record Sink : Type 1 where
  pub State : Type 0
  pub write_sanitized_frame : SanitizedFrame → State → Bool × State

-- type Response
pub record Response : Type 0 where
  pub request_id : Str
  pub decision : Decision
  pub reason_codes : List Str
  pub sanitizer_version : Str

-- What a call returns: a response, a gRPC status, or a panic of the process.
pub data Reply : Type 0 where
  response : Response → Reply
  failure : Status → Reply
  crash : Reply

-- A line of the log, with the keys that safeLog writes.
pub record LogLine : Type 0 where
  pub event : Str
  pub request_id : Str
  pub device_hash : Str
  pub trajectory_hash : Str
  pub sequence : ℕ
  pub decision : Str
  pub reason_codes : List Str

-- The peer of a context: none, one without TLS, or TLS with the raw certificates of the chain.
pub data Peer : Type 0 where
  no_peer no_tls : Peer
  tls : List Str → Peer

-- What the service reads of the outside in one call.
pub record Call : Type 0 where
  pub now : Time
  pub now' : Time
  pub peer : Peer

-- string(decision)
unfoldable pub decision_text : Decision → Str
unfolding text
decision_text accept = text "accept"
decision_text drop = text "drop"
decision_text quarantine = text "quarantine"
decision_text (other s) = s

module _ (P : Platform) where
  -- peerCertificateFingerprint
  unfoldable pub peer_certificate_fingerprint : Peer → Str
  peer_certificate_fingerprint (tls (raw ∷ more)) = hex_encode (P.sha256 raw)
  peer_certificate_fingerprint (tls []) = []
  peer_certificate_fingerprint no_peer = []
  peer_certificate_fingerprint no_tls = []

  -- safeRequestID
  unfoldable pub safe_request_id : SignedEnvelope → Str
  safe_request_id e =
      take 24
        (safe_hash P (e.device_id ++ (text ":" ++ (e.trajectory_id ++ (text ":" ++ e.frame_id)))))

  -- safeLog, for an envelope that is there
  unfoldable pub log_line : Str → SignedEnvelope → Str → List Str → LogLine
  log_line event e decision reasons = record {
    event = event;
    request_id = safe_request_id e;
    device_hash = safe_hash P e.device_id;
    trajectory_hash = safe_hash P e.trajectory_id;
    sequence = e.sequence;
    decision = decision;
    reason_codes = reasons;
  }

  unfoldable pub respond : SignedEnvelope → Decision → List Str → Str → Reply
  respond e decision reasons version = response (record {
    request_id = safe_request_id e;
    decision = decision;
    reason_codes = reasons;
    sanitizer_version = version;
  })

-- frame.Signature = …
abbrev pub with_signature : SignedEnvelope → RawFrame → RawFrame
with_signature e frame = record frame {
  signature = record {
    signature_alg = e.signature_alg;
    key_id = e.public_key_id;
    payload_sha256_hex = e.payload_sha256_hex;
    verification_status = text "verified";
  };
}
