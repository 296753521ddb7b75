-- ===== src/Ingest/Concurrent/Once.antt =====
-- Whatever calls run at the same time, a frame is accepted at most once.
use mathlib.Core.Path.{subst}
use golem_harness.Base.{
  ℕ, ◌+◌, ◌≤◌, Str, ◌≡◌, refl, sym, Bool, true, false, ◌&&◌, Option, none, some, List, [], ◌∷◌,
  ◌++◌, arith, str_eq, str_eq_iff, All, if◌then◌else◌,
}
use golem_harness.Platform.{Platform}
use golem_harness.Signing.{SignedEnvelope}
use golem_harness.Trajectory.{Decision, RawFrame, SanitizedFrame, accept, drop, quarantine, other}
use golem_harness.Auth.Log.{Frame, Log, NoReplay, Follows, logged}
use golem_harness.Errors.{Error}
use golem_harness.Auth.{Verifier}
use golem_harness.Auth.Guard.{ReplayGuard, IsGuard}
use golem_harness.Auth.Replays.{frame_of, attempt-kept, Knows}
use golem_harness.Ingest.{Service, refuse_auth, decode, sanitize, decide, store}
use golem_harness.Ingest.Calls.{
  Sanitizer, Sink, Reply, response, failure, crash, Call, peer_certificate_fingerprint,
}
use golem_harness.Ingest.Concurrent.{
  Answer, System, verified, with_verifier, Step, refuse, pass, finish, Reaches, start, later,
}

abbrev is_accept : Decision → Bool
is_accept accept = true
is_accept drop = false
is_accept quarantine = false
is_accept (other s) = false

-- The reply is a response that says accept.
abbrev pub says_accept : Reply → Bool
says_accept (response r) = is_accept r.decision
says_accept (failure status) = false
says_accept crash = false

-- How often the device's frame id stands in a log, among envelopes, and among accepted calls.
unfoldable pub times : Str → Str → Log → ℕ
times d f [] = 0
times d f (a ∷ log) =
    let rest = times d f log in if str_eq a.device d && str_eq a.id f then rest + 1 else rest

unfoldable pub times_pending : Str → Str → List SignedEnvelope → ℕ
times_pending d f [] = 0
times_pending d f (e ∷ rest) =
    let more = times_pending d f rest in
    if str_eq e.device_id d && str_eq e.frame_id f then more + 1 else more

unfoldable pub times_accepted : Str → Str → List Answer → ℕ
times_accepted d f [] = 0
times_accepted d f (a ∷ rest) =
    let more = times_accepted d f rest in
    if says_accept a.reply && (str_eq a.envelope.device_id d && str_eq a.envelope.frame_id f)
    then more + 1
    else more

times-Follows :
    (a : Frame) (log : Log) (d f : Str)
    → All (Follows a) log
    → str_eq a.device d && str_eq a.id f ≡ true
    → times d f log ≡ 0
unfolding times
times-Follows a [] d f h same = refl
times-Follows a (b ∷ log) d f h same = ground (
  arith,
  times-Follows a log d f h.1 same,
  str_eq_iff a.device d,
  str_eq_iff a.id f,
  str_eq_iff b.device d,
  str_eq_iff b.id f,
  h.0,
)

-- A log without replays has no frame id of a device twice.
pub times-NoReplay : (log : Log) (d f : Str) → NoReplay log → times d f log ≤ 1
unfolding times
times-NoReplay [] d f h = omega arith
times-NoReplay (a ∷ log) d f h =
    ground (arith, times-Follows a log d f h.0, times-NoReplay log d f h.1)

times_pending-middle :
    (d f : Str) (before after : List SignedEnvelope) (e : SignedEnvelope)
    → times_pending d f (before ++ e ∷ after) ≡ times_pending d f (e ∷ before ++ after)
unfolding times_pending
times_pending-middle d f [] after e = refl
times_pending-middle d f (b ∷ before) after e =
    ground (arith, times_pending-middle d f before after e)

module _ (G : ReplayGuard) (I : IsGuard G) (S : Sanitizer) (K : Sink) (P : Platform)
    (unmarshal : Str → Option RawFrame) (or_zero : Option SanitizedFrame → SanitizedFrame) where
  abbrev Sys : Type 0
  Sys = System G S K P unmarshal or_zero

  decode-verifier :
      (e : SignedEnvelope) (z : S.State) (k : K.State) (s : Service G S K)
      → (decode G S K P unmarshal e or_zero z k s).1.verifier ≡ s.verifier
  unfolding decode sanitize decide store
  decode-verifier e z k s = ground arith

  refuse_auth-verifier :
      (e : SignedEnvelope) (failed : Error) (s : Service G S K)
      → (refuse_auth G S K P unmarshal e failed s).1.verifier ≡ s.verifier
  unfolding refuse_auth
  refuse_auth-verifier e failed s = ground arith

  refuse_auth-rejects :
      (e : SignedEnvelope) (failed : Error) (s : Service G S K)
      → says_accept (refuse_auth G S K P unmarshal e failed s).0 ≡ false
  unfolding refuse_auth
  refuse_auth-rejects e failed s = ground arith

  abbrev pub Stood : Option (Verifier G) → Log → Type 0
  Stood none log = Unit
  Stood (some v) log = Knows P G I v log

  -- What holds while calls run: the guard stands for the log, the log has no replay, and every
  -- frame that was accepted or waits was passed.
  pub record IsSafe (old : Log) (s : Sys) : Type 0 where
    pub stands : Stood s.service.verifier s.log
    pub no_replay : NoReplay s.log
    pub counted :
        (d f : Str)
        → times_accepted d f s.answers + times_pending d f s.pending + times d f old
          ≤ times d f s.log

  verified-kept :
      (c : Call) (e : SignedEnvelope) (v : Verifier G) (log : Log) {reply : Option Error}
      → (verified G S K P unmarshal or_zero c e v).0 ≡ reply
      → Knows P G I v log
      → NoReplay log
      → Knows P G I (verified G S K P unmarshal or_zero c e v).1 (logged log (frame_of e) reply)
        × NoReplay (logged log (frame_of e) reply)
  verified-kept c e v log h rep clean =
      subst
        (λ r.
          Knows P G I (verified G S K P unmarshal or_zero c e v).1 (logged log (frame_of e) r)
          × NoReplay (logged log (frame_of e) r))
        h
        (attempt-kept P G I
          (record {
            now = c.now;
            now' = c.now';
            peer = peer_certificate_fingerprint P c.peer;
            envelope = e;
          })
          v log rep clean)

  step-IsSafe :
      (old : Log) {s t : Sys} → IsSafe old s → Step G S K P unmarshal or_zero s t → IsSafe old t
  unfolding times times_pending times_accepted
  step-IsSafe old {s} h (refuse c e v failed has bad) =
      let (stands, clean) =
        verified-kept c e v s.log bad (subst (λ x. Stood x s.log) has h.stands) h.no_replay in
      let v' = (verified G S K P unmarshal or_zero c e v).1 in
      let service = with_verifier G S K P unmarshal or_zero v' s.service in
      record {
        stands = subst (λ x. Stood x s.log) (sym (refuse_auth-verifier e failed service)) stands;
        no_replay = clean;
        counted = λ d f. ground (arith, refuse_auth-rejects e failed service, h.counted d f);
      }
  step-IsSafe old {s} h (pass c e v has fine) =
      let (stands, clean) =
        verified-kept c e v s.log fine (subst (λ x. Stood x s.log) has h.stands) h.no_replay in
      record { stands = stands; no_replay = clean; counted = λ d f. ground (arith, h.counted d f) }
  step-IsSafe old {s} h (finish before after e z k has hz hk) = record {
    stands = subst (λ x. Stood x s.log) (sym (decode-verifier e z k s.service)) h.stands;
    no_replay = h.no_replay;
    counted = λ d f. ground (arith, h.counted d f, times_pending-middle d f before after e);
  }

  pub Reaches-IsSafe :
      (old : Log) {s t : Sys} → IsSafe old s → Reaches G S K P unmarshal or_zero s t → IsSafe old t
  Reaches-IsSafe old h start = h
  Reaches-IsSafe old h (later r step) = step-IsSafe old (Reaches-IsSafe old h r) step

  -- A system whose guard stands for a log without replays, before any call.
  pub record IsIdle (s : Sys) (v : Verifier G) : Type 0 where
    pub has : s.service.verifier ≡ some v
    pub stands : Knows P G I v s.log
    pub clean : NoReplay s.log
    pub nothing_pending : s.pending ≡ []
    pub nothing_answered : s.answers ≡ []

  -- Whatever calls of IngestFrame run at the same time and however their steps interleave, no two
  -- calls with the same device and frame id are both answered accept, and none whose frame had
  -- been passed before, if the replay guard keeps its promise and stands for a log without
  -- replays.
  pub accepted_once :
      (s t : Sys) (v : Verifier G) (d f : Str)
      → IsIdle s v
      → Reaches G S K P unmarshal or_zero s t
      → times_accepted d f t.answers + times d f s.log ≤ 1
  unfolding times_pending times_accepted
  accepted_once s t v d f idle r =
      let begins : IsSafe s.log s = record {
        stands = subst (λ x. Stood x s.log) (sym idle.has) idle.stands;
        no_replay = idle.clean;
        counted = λ d f. ground (arith, idle.nothing_pending, idle.nothing_answered);
      } in
      let safe = Reaches-IsSafe s.log begins r in
      omega (arith, safe.counted d f, times-NoReplay t.log d f safe.no_replay)
