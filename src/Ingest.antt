-- ===== src/Ingest.antt =====
-- server/internal/ingest/service.go: one call of the ingest service, from the envelope to the sink.
pub mod Codes
pub mod Calls
pub mod Bind
pub mod Storing
pub mod Private
pub mod Appended
pub mod Concurrent
pub mod Timed
pub mod Accepting
use golem_harness.Base.{
  ℕ, Str, text, is_empty, ◌≡◌, Bool, true, false, Option, none, some, List, [], ◌∷◌, ◌++◌, take,
  if◌then◌else◌,
}
use golem_harness.Clock.{Time}
use golem_harness.Errors.{Error, panic}
use golem_harness.Platform.{Platform, hex_encode}
use golem_harness.Signing.{SignedEnvelope, safe_hash}
use golem_harness.Trajectory.{
  Decision, accept, drop, quarantine, other, RawFrame, SanitizedFrame, SignatureMetadata,
}
use golem_harness.Auth.{Verifier, verify}
use golem_harness.Auth.Guard.{ReplayGuard}
use golem_harness.Sanitize.Process.{Processed}
use golem_harness.Sanitize.Outcomes.{Outcome}
use golem_harness.Ingest.Codes.{
  Status, invalid_argument, failed_precondition, internal, safe_reason, map_auth_error,
}
use golem_harness.Ingest.Bind.{bind_envelope_to_frame}
use golem_harness.Ingest.Calls.{
  Sanitizer, Sink, Response, Reply, response, failure, crash, LogLine, Peer, no_peer, no_tls, tls,
  Call, decision_text, peer_certificate_fingerprint, safe_request_id, log_line, respond,
  with_signature,
}

module _ (G : ReplayGuard) (S : Sanitizer) (K : Sink) where
  -- type Service; what is nil is `none`. The log is what the logger has been given, newest first.
  pub record Service : Type 0 where
    pub verifier : Option (Verifier G)
    pub sanitizer : Option S.State
    pub storage : Option K.State
    pub log : List LogLine

  module _ (P : Platform) (unmarshal : Str → Option RawFrame) where
    abbrev rejected : SignedEnvelope → Str → List Str → Service → Service
    rejected e decision reasons s = record s {
      log = log_line P (text "ingest_rejected") e decision reasons ∷ s.log;
    }

    -- The write of an accepted frame.
    unfoldable pub store :
        SignedEnvelope → SanitizedFrame → Outcome → K.State → Service → Reply × Service
    store e frame outcome k s =
        let (write_failed, k') = K.write_sanitized_frame frame k in
        let s' = record s { storage = some k' } in
        if write_failed
        then (
          failure (record { code = internal; message = text "storage failed" }),
          rejected e (text "storage_failed") (text "storage_failed" ∷ []) s',
        )
        else (
          respond P e accept outcome.reason_codes outcome.sanitizer_version,
          record s' {
            log =
                log_line P (text "ingest_accepted") e (text "accept") outcome.reason_codes ∷ s'.log;
          },
        )

    -- What follows the sanitizer. An accepted outcome has a frame, or Go's zero frame.
    unfoldable pub decide :
        SignedEnvelope
        → (Option SanitizedFrame → SanitizedFrame)
        → Processed
        → K.State
        → Service
        → Reply × Service
    decide e or_zero processed k s =
        let outcome = processed.outcome in
        if processed.failed
        then (
          respond P e drop (text "sanitizer_error" ∷ []) outcome.sanitizer_version,
          rejected e (text "sanitizer_failed") (text "sanitizer_error" ∷ []) s,
        )
        else elim outcome.decision [
          | accept ↦ store e (or_zero outcome.frame) outcome k s
          | drop ↦ (
            respond P e drop outcome.reason_codes outcome.sanitizer_version,
            rejected e (decision_text drop) outcome.reason_codes s,
          )
          | quarantine ↦ (
            respond P e quarantine outcome.reason_codes outcome.sanitizer_version,
            rejected e (decision_text quarantine) outcome.reason_codes s,
          )
          | other d ↦ (
            respond P e (other d) outcome.reason_codes outcome.sanitizer_version,
            rejected e (decision_text (other d)) outcome.reason_codes s,
          )
        ]

    -- The sanitizer's call, for a frame that is bound to the envelope.
    unfoldable pub sanitize :
        SignedEnvelope
        → (Option SanitizedFrame → SanitizedFrame)
        → RawFrame
        → S.State
        → K.State
        → Service
        → Reply × Service
    sanitize e or_zero frame z k s =
        let (z', processed) = S.process (with_signature e frame) z in
        decide e or_zero processed k (record s { sanitizer = some z' })

    -- What follows a verification that passed.
    unfoldable pub decode :
        SignedEnvelope
        → (Option SanitizedFrame → SanitizedFrame)
        → S.State
        → K.State
        → Service
        → Reply × Service
    decode e or_zero z k s = elim (unmarshal e.payload) [
      | none ↦ (
        failure (record { code = invalid_argument; message = text "malformed payload" }),
        rejected e (text "malformed_payload") (text "payload_decode_failed" ∷ []) s,
      )
      | some raw ↦ elim (bind_envelope_to_frame e raw) [
        | none ↦ (
          failure (record {
            code = invalid_argument;
            message = text "payload metadata does not match envelope";
          }),
          rejected e (text "payload_binding_failed") (text "request_rejected" ∷ []) s,
        )
        | some frame ↦ sanitize e or_zero frame z k s
      ]
    ]

    unfoldable pub refuse_auth : SignedEnvelope → Error → Service → Reply × Service
    refuse_auth e panic s = (crash, s)
    refuse_auth e failed s = (
      failure (map_auth_error failed),
      rejected e (text "auth_failed") (safe_reason failed ∷ []) s,
    )

    -- The verifier's call.
    unfoldable pub authorize :
        Call
        → SignedEnvelope
        → (Option SanitizedFrame → SanitizedFrame)
        → Verifier G
        → S.State
        → K.State
        → Service
        → Reply × Service
    authorize c e or_zero v z k s =
        let (refusal, v') = verify P G c.now c.now' e (peer_certificate_fingerprint P c.peer) v in
        let s' = record s { verifier = some v' } in
        elim refusal [ some failed ↦ refuse_auth e failed s' | none ↦ decode e or_zero z k s' ]

    abbrev unconfigured : Reply
    unconfigured =
        failure
          (record { code = failed_precondition; message = text "ingest service is not configured" })

    -- IngestFrame; the nil envelope is `none`. `or_zero` puts Go's zero frame for a frame that is
    -- not there, which matters only for a sanitizer that accepts without one.
    unfoldable pub ingest_frame :
        Call
        → (Option SanitizedFrame → SanitizedFrame)
        → Option SignedEnvelope
        → Service
        → Reply × Service
    ingest_frame c or_zero none s =
        (failure (record { code = invalid_argument; message = text "missing envelope" }), s)
    ingest_frame c or_zero (some e) s = elim s.verifier [
      | none ↦ (unconfigured, s)
      | some v ↦ elim s.sanitizer [
        | none ↦ (unconfigured, s)
        | some z ↦ elim s.storage [
          | none ↦ (unconfigured, s)
          | some k ↦ authorize c e or_zero v z k s
        ]
      ]
    ]
