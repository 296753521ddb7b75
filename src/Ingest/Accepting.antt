-- ===== src/Ingest/Accepting.antt =====
-- server/internal/ingest/service.go: when IngestFrame answers accept.
use golem_harness.Base.{
  Str, ◌≡◌, refl, ap, ◌∙◌, List, Bool, false, Option, none, some, arith, ◌≢◌, [], true, text,
}
use golem_harness.Base.Dict.{lookup}
use golem_harness.Strings.{contains}
use golem_harness.Clock.{Time}
use golem_harness.Platform.{Platform}
use golem_harness.Signing.{SignedEnvelope}
use golem_harness.Trajectory.{accept, RawFrame, SanitizedFrame}
use golem_harness.Auth.{Verifier}
use golem_harness.Auth.Guard.{ReplayGuard}
use golem_harness.Ingest.{Service, ingest_frame, decide, store}
use golem_harness.Ingest.Bind.{filled, Agrees, Agrees→bind}
use golem_harness.Ingest.Calls.{
  Sanitizer, Sink, Response, response, Call, with_signature, respond, safe_request_id,
}
use golem_harness.Ingest.Storing.{verification, sanitization, reached, served-decide}
use golem_harness.Sanitize.Redactor.{Pattern, conservative_ner, new_text_redactor}
use golem_harness.Sanitize.Outcomes.{Pipeline, new_pipeline}
use golem_harness.Sanitize.Process.{Processed, process}
use golem_harness.Sanitize.Process.Decisions.{
  package_of, process_accepts, frame_of_accept, process_frame,
}
use golem_harness.Sanitize.Totality.{node_total}

-- The response of a call whose frame has been stored.
abbrev accepting : Platform → SignedEnvelope → Processed → Response
accepting P e x = record {
  request_id = safe_request_id P e;
  decision = accept;
  reason_codes = x.outcome.reason_codes;
  sanitizer_version = x.outcome.sanitizer_version;
}

module _ (G : ReplayGuard) (S : Sanitizer) (K : Sink) (P : Platform)
    (unmarshal : Str → Option RawFrame) (or_zero : Option SanitizedFrame → SanitizedFrame)
    (c : Call) (e : SignedEnvelope) (s : Service G S K) (v : Verifier G) (z : S.State) (k : K.State)
    (has_verifier : s.verifier ≡ some v) (has_sanitizer : s.sanitizer ≡ some z)
    (has_storage : s.storage ≡ some k) where
  decide-accepts :
      (x : Processed) (t : Service G S K)
      → x.outcome.decision ≡ accept
      → x.failed ≡ false
      → (K.write_sanitized_frame (or_zero x.outcome.frame) k).0 ≡ false
      → (decide G S K P unmarshal e or_zero x k t).0 ≡ response (accepting P e x)
  unfolding decide store respond
  decide-accepts x t accepted fine wrote = ground arith

  -- An envelope that is verified, with a payload that decodes and agrees with it, a frame that the
  -- sanitizer accepts, and a write without an error, is answered accept.
  pub ingest_frame-accepts :
      (raw : RawFrame)
      → (verification G S K P unmarshal or_zero c e s v z k has_verifier has_sanitizer
          has_storage).0
        ≡ none
      → unmarshal e.payload ≡ some raw
      → Agrees e raw
      → (S.process (with_signature e (filled e raw)) z).1.outcome.decision ≡ accept
      → (S.process (with_signature e (filled e raw)) z).1.failed ≡ false
      → (K.write_sanitized_frame
          (or_zero (S.process (with_signature e (filled e raw)) z).1.outcome.frame)
          k).0
        ≡ false
      → (r : Response) × ((ingest_frame G S K P unmarshal c or_zero (some e) s).0 ≡ response r)
        × (r.decision ≡ accept)
  ingest_frame-accepts raw passed decoded agrees accepted fine wrote =
      let frame = filled e raw in
      let hits =
        sanitization G S K P unmarshal or_zero c e s v z k has_verifier has_sanitizer has_storage
          frame in
      let same =
        served-decide G S K P unmarshal or_zero c e s v z k has_verifier has_sanitizer has_storage
          raw frame passed decoded (Agrees→bind e raw agrees) in
      (
        accepting P e hits.1,
        ap (λ q. q.0) same
            ∙ decide-accepts hits.1
                (reached G S K P unmarshal or_zero c e s v z k has_verifier has_sanitizer
                  has_storage frame)
                accepted fine wrote,
        refl,
      )

module _ (matches : Pattern → Str → Bool) (P : Platform) (clock : Time)
    (allowed sensitive : List Str) (frame : RawFrame) where
  abbrev pipeline : Pipeline
  pipeline = new_pipeline allowed sensitive

  -- The built-in NER and vision redactor never fail, so a frame of an allowed package that is not
  -- sensitive is accepted.
  pub new_pipeline-accepts :
      package_of frame ≢ []
      → lookup (package_of frame) pipeline.sensitive_packages ≡ none
      → contains (package_of frame) pipeline.allowed_packages ≡ true
      → ((process matches P clock pipeline frame).1.outcome.decision ≡ accept)
        × ((process matches P clock pipeline frame).1.failed ≡ false)
  unfolding new_pipeline
  new_pipeline-accepts named insensitive known =
      let (out, redacts) =
        node_total matches P conservative_ner (λ s. ([], refl)) frame.ui_root (text "ui_root")
          new_text_redactor in
      let accepted = (process_accepts matches P clock pipeline frame).1 (record {
        named = named;
        insensitive = insensitive;
        allowed = known;
        root = out.0;
        redactor = out.1;
        boxes = [];
        redacts = redacts;
        covers = refl;
      }) in
      let (f, has) = frame_of_accept matches P clock pipeline frame accepted in
      (accepted, (process_frame matches P clock pipeline frame f has).failed)
