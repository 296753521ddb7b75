-- ===== src/Ingest/Storing.antt =====
-- What reaches the sink: nothing unless the envelope is verified, its payload decodes and agrees with
-- it, and the sanitizer accepts.
use golem_harness.Base.{
  Str, ◌≡◌, ◌≢◌, refl, sym, ap, ◌∙◌, ◌⊎◌, inl, inr, false, Option, none, some, arith, Bool-cases,
  Option-cases,
}
use golem_harness.Errors.{Error, panic}
use golem_harness.Platform.{Platform}
use golem_harness.Signing.{SignedEnvelope}
use golem_harness.Trajectory.{Decision, accept, drop, quarantine, other, RawFrame, SanitizedFrame}
use golem_harness.Auth.{Verifier, verify}
use golem_harness.Auth.Guard.{ReplayGuard}
use golem_harness.Sanitize.Process.{Processed}
use golem_harness.Ingest.Bind.{bind_envelope_to_frame, IsBound, bind_exact}
use golem_harness.Ingest.{
  Service, ingest_frame, authorize, refuse_auth, decode, sanitize, decide, store,
}
use golem_harness.Ingest.Calls.{
  Sanitizer, Sink, Response, Reply, response, Call, with_signature, respond,
  peer_certificate_fingerprint,
}

module _ (G : ReplayGuard) (S : Sanitizer) (K : Sink) (P : Platform)
    (unmarshal : Str → Option RawFrame) (or_zero : Option SanitizedFrame → SanitizedFrame) where
  -- An outcome that is accepted without an error, and its frame written.
  pub record IsWritten (x : Processed) (k : K.State) (after : Option K.State) : Type 0 where
    pub accepted : x.outcome.decision ≡ accept
    pub succeeded : x.failed ≡ false
    pub stored : after ≡ some (K.write_sanitized_frame (or_zero x.outcome.frame) k).1

  -- All that must hold before a write.
  pub record IsCleared (c : Call) (e : SignedEnvelope) (v : Verifier G) (z : S.State) (k : K.State)
      (after : Option K.State) : Type 0 where
    pub verified : (verify P G c.now c.now' e (peer_certificate_fingerprint P c.peer) v).0 ≡ none
    pub raw : RawFrame
    pub decoded : unmarshal e.payload ≡ some raw
    pub frame : RawFrame
    pub agreed : bind_envelope_to_frame e raw ≡ some frame
    pub ids : IsBound e frame
    pub written : IsWritten (S.process (with_signature e frame) z).1 k after

  decision-cases : (d : Decision) → (d ≡ accept) ⊎ (d ≢ accept)
  decision-cases accept = inl refl
  decision-cases drop = inr (λ x. cc)
  decision-cases quarantine = inr (λ x. cc)
  decision-cases (other d) = inr (λ x. cc)

  decide-cases :
      (e : SignedEnvelope) (x : Processed) (k : K.State) (s : Service G S K)
      → let t = (decide G S K P unmarshal e or_zero x k s).1 in
        (t.storage ≡ s.storage) ⊎ IsWritten x k t.storage
  unfolding decide store
  decide-cases e x k s = elim (Bool-cases x.failed) [
    | inl failed ↦ inl (ground arith)
    | inr fine ↦ elim (decision-cases x.outcome.decision) [
      | inl yes' ↦ inr (record { accepted = yes'; succeeded = fine; stored = ground arith })
      | inr other' ↦ inl (ground arith)
    ]
  ]

  decide-accepts :
      (e : SignedEnvelope) (x : Processed) (k : K.State) (s : Service G S K) (r : Response)
      → (decide G S K P unmarshal e or_zero x k s).0 ≡ response r
      → r.decision ≡ accept
      → (x.outcome.decision ≡ accept)
        × (x.failed ≡ false)
        × ((K.write_sanitized_frame (or_zero x.outcome.frame) k).0 ≡ false)
        × ((decide G S K P unmarshal e or_zero x k s).1.storage
            ≡ some (K.write_sanitized_frame (or_zero x.outcome.frame) k).1)
  unfolding decide store respond
  decide-accepts e x k s r h a = elim (decision-cases x.outcome.decision) [
    | inl yes' ↦ (yes', ground arith, ground arith, ground arith)
    | inr other' ↦ absurd (ground arith)
  ]

  module _ (c : Call) (e : SignedEnvelope) (s : Service G S K) (v : Verifier G) (z : S.State)
      (k : K.State) (has_verifier : s.verifier ≡ some v) (has_sanitizer : s.sanitizer ≡ some z)
      (has_storage : s.storage ≡ some k) where
    abbrev pub served : Reply × Service G S K
    served = ingest_frame G S K P unmarshal c or_zero (some e) s

    abbrev pub verification : Option Error × Verifier G
    verification = verify P G c.now c.now' e (peer_certificate_fingerprint P c.peer) v

    abbrev pub sanitization : RawFrame → S.State × Processed
    sanitization frame = S.process (with_signature e frame) z

    abbrev pub reached : RawFrame → Service G S K
    reached frame = record s {
      verifier = some verification.1;
      sanitizer = some (sanitization frame).0;
    }

    served-authorize : served ≡ authorize G S K P unmarshal c e or_zero v z k s
    unfolding ingest_frame
    served-authorize = ground arith

    pub served-refused :
        (failed : Error)
        → verification.0 ≡ some failed
        → served
          ≡ refuse_auth G S K P unmarshal e failed (record s { verifier = some verification.1 })
    unfolding authorize
    served-refused failed x = served-authorize ∙ rw (x, authorize)

    refused-storage :
        (failed : Error)
        → (refuse_auth G S K P unmarshal e failed
            (record s { verifier = some verification.1 })).1.storage
          ≡ s.storage
    unfolding refuse_auth
    refused-storage panic = refl
    refused-storage _ = refl

    pub served-decode :
        verification.0 ≡ none
        → served
          ≡ decode G S K P unmarshal e or_zero z k (record s { verifier = some verification.1 })
    unfolding authorize
    served-decode x = served-authorize ∙ rw (x, authorize)

    pub served-decide :
        (raw frame : RawFrame)
        → verification.0 ≡ none
        → unmarshal e.payload ≡ some raw
        → bind_envelope_to_frame e raw ≡ some frame
        → served ≡ decide G S K P unmarshal e or_zero (sanitization frame).1 k (reached frame)
    unfolding decode sanitize
    served-decide raw frame passed decoded agreed =
        served-decode passed ∙ rw (decoded, decode) (rw (agreed, decode))

    -- A call of IngestFrame on a configured service leaves the sink as it was, or the envelope was
    -- verified, its payload was decoded and bound to it, the sanitizer accepted the frame without
    -- an error, and the sanitizer's frame was written.
    pub ingest_frame-IsCleared :
        (served.1.storage ≡ s.storage) ⊎ IsCleared c e v z k served.1.storage
    unfolding refuse_auth decode
    ingest_frame-IsCleared = elim (Option-cases verification.0) [
      | inr (failed, x) ↦ rw (served-refused failed x) (inl (refused-storage failed))
      | inl passed ↦ elim (Option-cases (unmarshal e.payload)) [
        | inl x ↦ rw (served-decode passed) (inl (rw (x, decode)))
        | inr (raw, decoded) ↦ elim (Option-cases (bind_envelope_to_frame e raw)) [
          | inl x ↦ rw (served-decode passed) (inl (rw (decoded, decode) (rw (x, decode))))
          | inr (frame, agreed) ↦
              rw (served-decide raw frame passed decoded agreed)
                (elim (decide-cases e (sanitization frame).1 k (reached frame)) [
                  | inl kept ↦ inl kept
                  | inr written ↦ inr (record {
                    verified = passed;
                    raw = raw;
                    decoded = decoded;
                    frame = frame;
                    agreed = agreed;
                    ids = ((bind_exact e raw frame).0 agreed).1;
                    written = written;
                  })
                ])
        ]
      ]
    ]

    refused-ne-response :
        (failed : Error) (t : Service G S K) (r : Response)
        → (refuse_auth G S K P unmarshal e failed t).0 ≢ response r
    unfolding refuse_auth
    refused-ne-response panic t r h = cc
    refused-ne-response _ t r h = cc

    -- A response of a configured service, with any sanitizer and sink, that says accept means that
    -- the envelope was verified, its payload decoded and bound to it, the frame accepted by the
    -- sanitizer, and the sanitizer's frame written without an error.
    pub ingest_frame-accept :
        (r : Response)
        → served.0 ≡ response r
        → r.decision ≡ accept
        → (cleared : IsCleared c e v z k served.1.storage) × ((K.write_sanitized_frame
              (or_zero (sanitization cleared.frame).1.outcome.frame)
              k).0
            ≡ false)
    unfolding decode
    ingest_frame-accept r h a = elim (Option-cases verification.0) [
      | inr (failed, x) ↦
          absurd
            (refused-ne-response failed _ r (sym (ap (λ q. q.0) (served-refused failed x)) ∙ h))
      | inl passed ↦ elim (Option-cases (unmarshal e.payload)) [
        | inl x ↦ absurd (unanswered (rw (served-decode passed) at h) x)
        | inr (raw, decoded) ↦ elim (Option-cases (bind_envelope_to_frame e raw)) [
          | inl x ↦ absurd (unbound raw (rw (served-decode passed) at h) decoded x)
          | inr (frame, agreed) ↦
              let same = served-decide raw frame passed decoded agreed in
              let (accepted, succeeded, wrote, stored) =
                decide-accepts e (sanitization frame).1 k (reached frame) r
                  (sym (ap (λ q. q.0) same) ∙ h) a in
              (
                record {
                  verified = passed;
                  raw = raw;
                  decoded = decoded;
                  frame = frame;
                  agreed = agreed;
                  ids = ((bind_exact e raw frame).0 agreed).1;
                  written = record {
                    accepted = accepted;
                    succeeded = succeeded;
                    stored = ap (λ q. q.1.storage) same ∙ stored;
                  };
                },
                wrote,
              )
        ]
      ]
    ]
      where
        unanswered :
            (decode G S K P unmarshal e or_zero z k (record s { verifier = some verification.1 })).0
              ≡ response r
            → unmarshal e.payload ≡ none
            → ⊥
        unanswered q x = ground arith

        unbound :
            (raw : RawFrame)
            → (decode G S K P unmarshal e or_zero z k
                (record s { verifier = some verification.1 })).0
              ≡ response r
            → unmarshal e.payload ≡ some raw
            → bind_envelope_to_frame e raw ≡ none
            → ⊥
        unbound raw q decoded x = ground arith
