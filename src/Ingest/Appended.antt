-- ===== src/Ingest/Appended.antt =====
-- The service with the sanitizing pipeline and the JSONL sink.
use golem_harness.Base.{Str, ◌≡◌, Bool, true, false, Option, none, some}
use golem_harness.Clock.{Time}
use golem_harness.Platform.{Platform}
use golem_harness.Signing.{SignedEnvelope}
use golem_harness.Trajectory.{accept, RawFrame, SanitizedFrame}
use golem_harness.Auth.{Verifier}
use golem_harness.Auth.Guard.{ReplayGuard}
use golem_harness.Sanitize.Redactor.{Pattern}
use golem_harness.Sanitize.Outcomes.{Pipeline}
use golem_harness.Ingest.{Service, ingest_frame}
use golem_harness.Ingest.Calls.{Sink, Response, response, Call}
use golem_harness.Ingest.Private.{pipeline_sanitizer, or_frame, ingest_frame-IsDelivered}
use golem_harness.Storage.{JsonlSink, write_sanitized_frame}
use golem_harness.Storage.Paths.{Files, Names, StorageError}
use golem_harness.Storage.Writing.{IsAppended, write_sanitized_frame-IsAppended}

abbrev has_failed : Option StorageError → Bool
has_failed none = false
has_failed (some x) = true

has_failed-none : (x : Option StorageError) → has_failed x ≡ false → x ≡ none
has_failed-none none h = cc
has_failed-none (some x) h = cc

module _ (F : Files) (N : Names) (marshal : SanitizedFrame → Option Str) (now : Time) where
  -- storage.JSONLSink as a Sink, at one reading of its clock and a context that has not ended
  abbrev pub jsonl_sink : Sink
  jsonl_sink = record {
    State = JsonlSink F N;
    write_sanitized_frame = λ f s.
        let (failure, s') = write_sanitized_frame F N marshal false now f s in
        (has_failed failure, s');
  }

  module _ (matches : Pattern → Str → Bool) (P : Platform) (clock : Time) (G : ReplayGuard)
      (unmarshal : Str → Option RawFrame) (zero_frame : SanitizedFrame) where
    -- Where IngestFrame of a configured service with the sanitizing pipeline and the JSONL sink
    -- answers accept, a frame with the envelope's frame id, device id and sequence has been
    -- appended to the sink's file as one line.
    pub ingest_frame-IsAppended :
        (c : Call) (e : SignedEnvelope)
        (s : Service G (pipeline_sanitizer matches P clock) jsonl_sink) (v : Verifier G)
        (p : Pipeline) (k : JsonlSink F N) (r : Response)
        → s.verifier ≡ some v
        → s.sanitizer ≡ some p
        → s.storage ≡ some k
        → (ingest_frame G
            (pipeline_sanitizer matches P clock)
            jsonl_sink
            P
            unmarshal
            c
            (or_frame zero_frame)
            (some e)
            s).0
          ≡ response r
        → r.decision ≡ accept
        → (f : SanitizedFrame) × (t : JsonlSink F N) × ((ingest_frame G
              (pipeline_sanitizer matches P clock)
              jsonl_sink
              P
              unmarshal
              c
              (or_frame zero_frame)
              (some e)
              s).1.storage
            ≡ some t)
          × IsAppended F N marshal now f k t
          × (f.frame_id ≡ e.frame_id)
          × (f.device.device_id ≡ e.device_id)
          × (f.sequence ≡ e.sequence)
    ingest_frame-IsAppended c e s v p k r hv hp hk h a =
        let x =
          ingest_frame-IsDelivered matches P clock G jsonl_sink unmarshal zero_frame c e s v p k r
            hv hp hk h a in
        (
          x.frame,
          (write_sanitized_frame F N marshal false now x.frame k).1,
          x.stored,
          write_sanitized_frame-IsAppended F N marshal false now x.frame k
              (has_failed-none _ x.wrote),
          x.frame_id,
          x.device_id,
          x.sequence,
        )
