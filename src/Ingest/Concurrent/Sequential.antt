-- ===== src/Ingest/Concurrent/Sequential.antt =====
-- server/internal/ingest/service.go: calls of IngestFrame that no other call interrupts. Each is a run
-- of the concurrent system.
use mathlib.Core.Path.{subst}
use golem_harness.Base.{
  ◌+◌, ◌≤◌, Str, ◌≡◌, refl, sym, ap, ◌∙◌, ◌⊎◌, false, Option, none, some, List, [], ◌∷◌, arith,
  Option-cases, inl, inr,
}
use golem_harness.Platform.{Platform}
use golem_harness.Signing.{SignedEnvelope}
use golem_harness.Trajectory.{RawFrame, SanitizedFrame}
use golem_harness.Auth.{Verifier}
use golem_harness.Auth.Guard.{ReplayGuard, IsGuard}
use golem_harness.Auth.Log.{Log, NoReplay}
use golem_harness.Auth.Replays.{Knows}
use golem_harness.Ingest.{Service, ingest_frame}
use golem_harness.Ingest.Calls.{Sanitizer, Sink, Reply, Call}
use golem_harness.Ingest.Storing.{served-refused, served-decode}
use golem_harness.Ingest.Concurrent.{
  Answer, System, verified, refuse, pass, finish, Reaches, start, later,
}
use golem_harness.Ingest.Concurrent.Once.{
  says_accept, times, times_accepted, times_pending, times-NoReplay, IsSafe, Reaches-IsSafe, Stood,
}

module _ (G : ReplayGuard) (S : Sanitizer) (K : Sink) (P : Platform)
    (unmarshal : Str → Option RawFrame) (or_zero : Option SanitizedFrame → SanitizedFrame) where
  abbrev Sys : Type 0
  Sys = System G S K P unmarshal or_zero

  -- The system after a call that ended with this reply and this service.
  record IsAnswered (s : Sys) (e : SignedEnvelope) (call : Reply × Service G S K) : Type 0 where
    after : Sys
    reached : Reaches G S K P unmarshal or_zero s after
    service : after.service ≡ call.1
    pending : after.pending ≡ s.pending
    answers : after.answers ≡ record { envelope = e; reply = call.0 } ∷ s.answers

  -- On a configured service, the reply and the service that a call of IngestFrame gives alone are
  -- those of a run of the concurrent system with that call only.
  ingest_frame-IsAnswered :
      (c : Call) (e : SignedEnvelope) (s : Sys) (v : Verifier G) (z : S.State) (k : K.State)
      → s.service.verifier ≡ some v
      → s.service.sanitizer ≡ some z
      → s.service.storage ≡ some k
      → IsAnswered s e (ingest_frame G S K P unmarshal c or_zero (some e) s.service)
  ingest_frame-IsAnswered c e s v z k hv hz hk =
      elim (Option-cases (verified G S K P unmarshal or_zero c e v).0) [
        | inr (failed, bad) ↦
            rw (served-refused G S K P unmarshal or_zero c e s.service v z k hv hz hk failed bad)
              (record {
                after = _;
                reached = later start (refuse c e v failed hv bad);
                service = refl;
                pending = refl;
                answers = refl;
              })
        | inl fine ↦
            rw (served-decode G S K P unmarshal or_zero c e s.service v z k hv hz hk fine) (record {
              after = _;
              reached =
                  later (later start (pass c e v hv fine)) (finish [] s.pending e z k refl hz hk);
              service = refl;
              pending = refl;
              answers = refl;
            })
      ]

  -- Calls of IngestFrame, one after the other, each with its envelope; the answers come back newest
  -- first, in front of those that were there.
  unfoldable pub ingest_all :
      List (Call × SignedEnvelope) → Service G S K → List Answer → List Answer
  ingest_all [] s done = done
  ingest_all (x ∷ rest) s done =
      let (reply, s') = ingest_frame G S K P unmarshal x.0 or_zero (some x.1) s in
      ingest_all rest s' (record { envelope = x.1; reply = reply } ∷ done)

  module _ (I : IsGuard G) where
    abbrev Safe : Log → Sys → Type 0
    Safe = IsSafe G I S K P unmarshal or_zero

    -- A service that lacks a part answers with a failure and stays as it is.
    unanswered-Safe :
        (old : Log) (s : Sys) (e : SignedEnvelope) (reply : Reply)
        → Safe old s
        → says_accept reply ≡ false
        → Safe old (record s { answers = record { envelope = e; reply = reply } ∷ s.answers })
    unfolding times_accepted
    unanswered-Safe old s e reply h rejects = record {
      stands = h.stands;
      no_replay = h.no_replay;
      counted = λ d f. ground (arith, rejects, h.counted d f);
    }

    -- The system that stands for the service after a call that no other interrupts.
    record IsNext (old : Log) (s : Sys) (e : SignedEnvelope) (call : Reply × Service G S K)
        : Type 0 where
      after : Sys
      safe : Safe old after
      service : after.service ≡ call.1
      answers : after.answers ≡ record { envelope = e; reply = call.0 } ∷ s.answers
      pending : after.pending ≡ s.pending

    unconfigured-IsNext :
        (old : Log) (s : Sys) (c : Call) (e : SignedEnvelope)
        → Safe old s
        → (s.service.verifier ≡ none) ⊎ ((s.service.sanitizer ≡ none) ⊎ (s.service.storage ≡ none))
        → IsNext old s e (ingest_frame G S K P unmarshal c or_zero (some e) s.service)
    unfolding ingest_frame
    unconfigured-IsNext old s c e h lacks =
        let call = ingest_frame G S K P unmarshal c or_zero (some e) s.service in
        record {
          after = record s { answers = record { envelope = e; reply = call.0 } ∷ s.answers };
          safe = unanswered-Safe old s e call.0 h (ground arith);
          service = ground arith;
          answers = refl;
          pending = refl;
        }

    ingest_frame-IsNext :
        (old : Log) (s : Sys) (c : Call) (e : SignedEnvelope)
        → Safe old s
        → IsNext old s e (ingest_frame G S K P unmarshal c or_zero (some e) s.service)
    ingest_frame-IsNext old s c e h = elim (Option-cases s.service.verifier) [
      | inl x ↦ unconfigured-IsNext old s c e h (inl x)
      | inr (v, hv) ↦ elim (Option-cases s.service.sanitizer) [
        | inl x ↦ unconfigured-IsNext old s c e h (inr (inl x))
        | inr (z, hz) ↦ elim (Option-cases s.service.storage) [
          | inl x ↦ unconfigured-IsNext old s c e h (inr (inr x))
          | inr (k, hk) ↦
              let x = ingest_frame-IsAnswered c e s v z k hv hz hk in
              record {
                after = x.after;
                safe = Reaches-IsSafe G I S K P unmarshal or_zero old h x.reached;
                service = x.service;
                answers = x.answers;
                pending = x.pending;
              }
        ]
      ]
    ]

    ingest_all-counted :
        (calls : List (Call × SignedEnvelope)) (old : Log) (s : Sys) (d f : Str)
        → Safe old s
        → times_accepted d f (ingest_all calls s.service s.answers) + times d f old ≤ 1
    unfolding ingest_all
    ingest_all-counted [] old s d f h =
        omega (arith, h.counted d f, times-NoReplay s.log d f h.no_replay)
    ingest_all-counted (x ∷ rest) old s d f h =
        let next = ingest_frame-IsNext old s x.0 x.1 h in
        let same =
          ap (λ q. ingest_all rest q next.after.answers) next.service
          ∙ ap (ingest_all rest _) next.answers in
        subst (λ done. times_accepted d f done + times d f old ≤ 1) same
          (ingest_all-counted rest old next.after d f next.safe)

    -- Over any calls of IngestFrame, one after the other, with any envelopes and clocks and on a
    -- service with a verifier, which may lack its other parts: no two calls with the same device
    -- and frame id are both answered accept, and none whose frame is in the log, if the replay
    -- guard keeps its promise and stands for that log, which has no replays.
    pub ingest_all-accepts_once :
        (calls : List (Call × SignedEnvelope)) (s : Service G S K) (v : Verifier G) (log : Log)
        (d f : Str)
        → s.verifier ≡ some v
        → Knows P G I v log
        → NoReplay log
        → times_accepted d f (ingest_all calls s []) + times d f log ≤ 1
    unfolding times_accepted times_pending
    ingest_all-accepts_once calls s v log d f has stands clean =
        let idle : Sys = record { service = s; pending = []; answers = []; log = log } in
        ingest_all-counted calls log idle d f (record {
          stands = subst (λ x. Stood G I S K P unmarshal or_zero x log) (sym has) stands;
          no_replay = clean;
          counted = λ d f. omega arith;
        })
