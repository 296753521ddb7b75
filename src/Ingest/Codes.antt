-- ===== src/Ingest/Codes.antt =====
-- server/internal/ingest/service.go: the gRPC status and the reason text of an error.
use golem_harness.Base.{Str, text}
use golem_harness.Errors.{
  Error, missing_signature, invalid_signature, expired_payload, future_payload, oversized_payload,
  unauthorized, replay, replay_state_full, cert_mismatch, malformed, plain, panic,
}

-- The codes of google.golang.org/grpc/codes that the service uses.
pub data Code : Type 0 where
  invalid_argument failed_precondition unauthenticated already_exists : Code
  resource_exhausted internal : Code

pub record Status : Type 0 where
  pub code : Code
  pub message : Str

-- safeReason. A panic returns no error; its line stands for the default.
unfoldable pub safe_reason : Error → Str
unfolding text
safe_reason missing_signature = text "missing_signature"
safe_reason invalid_signature = text "invalid_signature"
safe_reason expired_payload = text "expired_payload"
safe_reason future_payload = text "future_payload"
safe_reason oversized_payload = text "oversized_payload"
safe_reason unauthorized = text "unauthorized_device"
safe_reason replay = text "replayed_frame"
safe_reason replay_state_full = text "replay_state_full"
safe_reason cert_mismatch = text "client_cert_mismatch"
safe_reason (malformed detail) = text "malformed_envelope"
safe_reason (plain detail) = text "request_rejected"
safe_reason panic = text "request_rejected"

abbrev code_of : Error → Code
code_of missing_signature = unauthenticated
code_of invalid_signature = unauthenticated
code_of unauthorized = unauthenticated
code_of expired_payload = unauthenticated
code_of future_payload = unauthenticated
code_of cert_mismatch = unauthenticated
code_of replay = already_exists
code_of oversized_payload = resource_exhausted
code_of replay_state_full = resource_exhausted
code_of (malformed detail) = invalid_argument
code_of (plain detail) = invalid_argument
code_of panic = invalid_argument

-- mapAuthError
unfoldable pub map_auth_error : Error → Status
map_auth_error e = record { code = code_of e; message = safe_reason e }
