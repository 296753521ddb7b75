-- ===== src/Ingest/Concurrent.antt =====
-- server/internal/ingest/service.go: the calls of IngestFrame that a server runs at the same time.
-- The replay guard and the sink lock themselves, and the sanitizer keeps no state of its own, so a
-- call is two steps, its verification and what follows it, and other calls may come in between.
pub mod Once
pub mod Sequential
use golem_harness.Base.{Str, ◌≡◌, Bool, true, false, Option, none, some, List, ◌∷◌, ◌++◌}
use golem_harness.Errors.{Error}
use golem_harness.Platform.{Platform}
use golem_harness.Signing.{SignedEnvelope}
use golem_harness.Trajectory.{RawFrame, SanitizedFrame}
use golem_harness.Auth.{Verifier, verify}
use golem_harness.Auth.Guard.{ReplayGuard}
use golem_harness.Auth.Log.{Log}
use golem_harness.Auth.Replays.{frame_of}
use golem_harness.Ingest.{Service, refuse_auth, decode}
use golem_harness.Ingest.Calls.{Sanitizer, Sink, Reply, Call, peer_certificate_fingerprint}

-- The end of a call.
pub record Answer : Type 0 where
  pub envelope : SignedEnvelope
  pub reply : Reply

module _ (G : ReplayGuard) (S : Sanitizer) (K : Sink) (P : Platform)
    (unmarshal : Str → Option RawFrame) (or_zero : Option SanitizedFrame → SanitizedFrame) where
  -- The service, the envelopes of the calls between their two steps, the calls that have ended,
  -- newest first, and the frames of which the verification has passed.
  pub record System : Type 0 where
    pub service : Service G S K
    pub pending : List SignedEnvelope
    pub answers : List Answer
    pub log : Log

  -- What verification answers to a call.
  abbrev pub verified : Call → SignedEnvelope → Verifier G → Option Error × Verifier G
  verified c e v = verify P G c.now c.now' e (peer_certificate_fingerprint P c.peer) v

  abbrev pub with_verifier : Verifier G → Service G S K → Service G S K
  with_verifier v s = record s { verifier = some v }

  -- A call ends with a reply.
  abbrev pub ended : SignedEnvelope → Reply × Service G S K → System → System
  ended e (reply, service) s = record s {
    service = service;
    answers = record { envelope = e; reply = reply } ∷ s.answers;
  }

  pub data Step (s : System) : System → Type 0 where
    -- A call comes in and its envelope is refused.
    refuse :
        (c : Call) (e : SignedEnvelope) (v : Verifier G) (failed : Error)
        → s.service.verifier ≡ some v
        → (verified c e v).0 ≡ some failed
        → Step s (
            ended e
              (refuse_auth G S K P unmarshal e failed (with_verifier (verified c e v).1 s.service))
              s)
    -- A call comes in and its envelope passes.
    pass :
        (c : Call) (e : SignedEnvelope) (v : Verifier G)
        → s.service.verifier ≡ some v
        → (verified c e v).0 ≡ none
        → Step s (record s {
          service = with_verifier (verified c e v).1 s.service;
          pending = e ∷ s.pending;
          log = frame_of e ∷ s.log;
        })
    -- A call whose envelope has passed ends.
    finish :
        (before after : List SignedEnvelope) (e : SignedEnvelope) (z : S.State) (k : K.State)
        → s.pending ≡ before ++ e ∷ after
        → s.service.sanitizer ≡ some z
        → s.service.storage ≡ some k
        → Step s (
            ended e
              (decode G S K P unmarshal e or_zero z k s.service)
              (record s { pending = before ++ after }))

  -- Any number of steps of any calls.
  pub data Reaches (s : System) : System → Type 0 where
    start : Reaches s s
    later : {t u : System} → Reaches s t → Step t u → Reaches s u
