-- ===== src/Ingest/Timed.antt =====
-- The sanitizing pipeline and the JSONL sink with a clock that goes on: each call takes the next of
-- the times that time.Now is going to give.
use golem_harness.Base.{ℕ, suc, Str, Bool, Option, some}
use golem_harness.Clock.{Time}
use golem_harness.Platform.{Platform}
use golem_harness.Trajectory.{RawFrame, SanitizedFrame}
use golem_harness.Sanitize.Redactor.{Pattern}
use golem_harness.Sanitize.Process.{process}
use golem_harness.Sanitize.Outcomes.{Pipeline}
use golem_harness.Signing.{SignedEnvelope}
use golem_harness.Auth.Guard.{ReplayGuard}
use golem_harness.Ingest.{Service, ingest_frame}
use golem_harness.Ingest.Calls.{Sanitizer, Sink, Reply, Call}
use golem_harness.Ingest.Appended.{jsonl_sink}
use golem_harness.Storage.{JsonlSink}
use golem_harness.Storage.Paths.{Files, Names}

-- The readings of a clock.
abbrev pub Readings : Type 0
Readings = ℕ → Time

abbrev pub next : Readings → Readings
next clock n = clock (suc n)

abbrev pub timed_pipeline : (Pattern → Str → Bool) → Platform → Sanitizer
timed_pipeline matches P = record {
  State = Readings × Pipeline;
  process = λ frame (clock, p).
      let (p', processed) = process matches P (clock 0) p frame in ((next clock, p'), processed);
}

abbrev pub timed_sink : (F : Files) (N : Names) → (SanitizedFrame → Option Str) → Sink
timed_sink F N marshal = record {
  State = Readings × JsonlSink F N;
  write_sanitized_frame = λ frame (now, s).
      let (bad, s') = (jsonl_sink F N marshal (now 0)).write_sanitized_frame frame s in
      (bad, (next now, s'));
}

module _ (G : ReplayGuard) (S : Sanitizer) (K : Sink) (P : Platform)
    (unmarshal : Str → Option RawFrame) (or_zero : Option SanitizedFrame → SanitizedFrame) where
  -- A service, with what its calls are going to read of the outside.
  abbrev pub TimedService : Type 0
  TimedService = (ℕ → Call) × Service G S K

  -- IngestFrame, for the next of these calls
  unfoldable pub timed_ingest : SignedEnvelope → TimedService → Reply × TimedService
  timed_ingest e (calls, s) =
      let (reply, s') = ingest_frame G S K P unmarshal (calls 0) or_zero (some e) s in
      (reply, (λ n. calls (suc n), s'))
