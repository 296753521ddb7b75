-- ===== src/Ingest/Private.antt =====
-- The service with the sanitizing pipeline: what an accepted frame shows of the raw one.
use mathlib.Core.Path.{subst}
use golem_harness.Base.{Str, ◌≡◌, ◌≢◌, sym, ap, ◌∙◌, Bool, false, Option, none, some, []}
use golem_harness.Clock.{Time}
use golem_harness.Platform.{Platform}
use golem_harness.Signing.{SignedEnvelope}
use golem_harness.Trajectory.{accept, RawFrame, SanitizedFrame}
use golem_harness.Auth.{Verifier}
use golem_harness.Auth.Guard.{ReplayGuard}
use golem_harness.Sanitize.Redactor.{Pattern}
use golem_harness.Sanitize.Nodes.{NodeClean}
use golem_harness.Sanitize.Process.{process}
use golem_harness.Sanitize.Outcomes.{Pipeline}
use golem_harness.Sanitize.Process.Decisions.{ner_of, process_frame, frame_of_accept}
use golem_harness.Ingest.{Service, ingest_frame}
use golem_harness.Ingest.Calls.{Sanitizer, Sink, Response, response, Call, with_signature}
use golem_harness.Ingest.Bind.{bind_exact}
use golem_harness.Ingest.Storing.{ingest_frame-accept}

-- sanitize.Pipeline as a Sanitizer; `clock` is what time.Now gives.
abbrev pub pipeline_sanitizer : (Pattern → Str → Bool) → Platform → Time → Sanitizer
pipeline_sanitizer matches P clock = record {
  State = Pipeline;
  process = λ frame p. process matches P clock p frame;
}

-- frame, or Go's zero frame
abbrev pub or_frame : SanitizedFrame → Option SanitizedFrame → SanitizedFrame
or_frame zero_frame none = zero_frame
or_frame zero_frame (some frame) = frame

module _ (matches : Pattern → Str → Bool) (P : Platform) (clock : Time) (G : ReplayGuard) (K : Sink)
    (unmarshal : Str → Option RawFrame) (zero_frame : SanitizedFrame) where
  abbrev S : Sanitizer
  S = pipeline_sanitizer matches P clock

  -- The frame that a sink was given: clean, and with the identifiers of the envelope.
  pub record IsDelivered (e : SignedEnvelope) (p : Pipeline) (k : K.State) (after : Option K.State)
      : Type 0 where
    pub raw : RawFrame
    pub decoded : unmarshal e.payload ≡ some raw
    pub frame : SanitizedFrame
    pub stored : after ≡ some (K.write_sanitized_frame frame k).1
    pub wrote : (K.write_sanitized_frame frame k).0 ≡ false
    pub clean : NodeClean matches P (ner_of p) raw.ui_root frame.ui_root
    pub frame_id : frame.frame_id ≡ e.frame_id
    pub trajectory_id : frame.trajectory_id ≡ e.trajectory_id
    pub protocol_version : frame.protocol_version ≡ e.protocol_version
    pub device_id : frame.device.device_id ≡ e.device_id
    pub sequence : frame.sequence ≡ e.sequence
    pub version : frame.sanitizer.sanitizer_version ≢ []
    pub marked : frame.sanitizer.decision ≡ accept

  -- Where IngestFrame of a configured service with the sanitizing pipeline answers accept, the
  -- sink has been given, without an error, a frame whose tree is the decoded payload's, field by
  -- field, but for its raw texts and content descriptions, each of which is blank, redacted or
  -- replaced by its hash, and whose identifiers are those of the envelope.
  pub ingest_frame-IsDelivered :
      (c : Call) (e : SignedEnvelope) (s : Service G S K) (v : Verifier G) (p : Pipeline)
      (k : K.State) (r : Response)
      → s.verifier ≡ some v
      → s.sanitizer ≡ some p
      → s.storage ≡ some k
      → (ingest_frame G S K P unmarshal c (or_frame zero_frame) (some e) s).0 ≡ response r
      → r.decision ≡ accept
      → IsDelivered e p k
          (ingest_frame G S K P unmarshal c (or_frame zero_frame) (some e) s).1.storage
  ingest_frame-IsDelivered c e s v p k r hv hp hk h a =
      let (x, wrote) =
        ingest_frame-accept G S K P unmarshal (or_frame zero_frame) c e s v p k hv hp hk r h a in
      let sent = with_signature e x.frame in
      let (f, e') = frame_of_accept matches P clock p sent x.written.accepted in
      let sound = process_frame matches P clock p sent f e' in
      let same_root = ap (λ y. y.ui_root) ((bind_exact e x.raw x.frame).0 x.agreed).2 in
      let same = ap (or_frame zero_frame) e' in
      record {
        raw = x.raw;
        decoded = x.decoded;
        frame = f;
        stored = x.written.stored ∙ ap (λ y. some (K.write_sanitized_frame y k).1) same;
        wrote = ap (λ y. (K.write_sanitized_frame y k).0) (sym same) ∙ wrote;
        clean = subst (λ y. NodeClean matches P (ner_of p) y f.ui_root) same_root sound.clean;
        frame_id = sound.frame_id ∙ x.ids.frame_id;
        trajectory_id = sound.trajectory_id ∙ x.ids.trajectory_id;
        protocol_version = sound.protocol_version ∙ x.ids.protocol_version;
        device_id = ap (λ y. y.device_id) sound.device ∙ x.ids.device_id;
        sequence = sound.sequence ∙ x.ids.sequence;
        version = sound.version;
        marked = sound.marked;
      }
