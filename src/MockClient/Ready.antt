-- ===== src/MockClient/Ready.antt =====
-- mock-client/main.go: the package of its second frame, and services that stay ready to quarantine it.
use mathlib.Core.Path.{subst}
use golem_harness.Base.{
  ℕ, Str, text, str_eq, ◌≡◌, refl, Bool, true, false, ◌&&◌, Option, none, some, arith, Option-cases,
  inl, inr,
}
use golem_harness.Base.Dict.{lookup}
use golem_harness.Clock.{Time}
use golem_harness.Errors.{Error}
use golem_harness.Platform.{Platform}
use golem_harness.Strings.{trim_space}
use golem_harness.Trajectory.{RawFrame, SanitizedFrame}
use golem_harness.Signing.{SignedEnvelope}
use golem_harness.Auth.{Verifier, verify}
use golem_harness.Auth.Guard.{ReplayGuard}
use golem_harness.Sanitize.Redactor.{Pattern}
use golem_harness.Sanitize.Outcomes.{Pipeline, default_sensitive_packages, Outcome, with_defaults}
use golem_harness.Sanitize.Process.Decisions.{package_of}
use golem_harness.Sanitize.Process.{Processed, process}
use golem_harness.Ingest.{
  Service, ingest_frame, authorize, refuse_auth, decode, sanitize, decide, store,
}
use golem_harness.Ingest.Timed.{Readings, timed_pipeline}
use golem_harness.Ingest.Bind.{bind_envelope_to_frame}
use golem_harness.Ingest.Calls.{Sanitizer, Sink, Call, with_signature, peer_certificate_fingerprint}
use golem_harness.Ingest.Storing.{served-refused, served-decode}
use golem_harness.MockClient.{synthetic_frame}

-- The package of the second frame is built in as sensitive.
pub synthetic_frame-sensitive :
    (now : Time) (trajectory_id frame_id : Str) (sequence : ℕ)
    → let frame = synthetic_frame now trajectory_id frame_id sequence (text "com.example.bank") in
      (package_of frame ≡ text "com.example.bank")
      × (lookup (package_of frame) default_sensitive_packages ≡ some (text "banking_app"))
unfolding synthetic_frame trim_space lookup default_sensitive_packages text str_eq
synthetic_frame-sensitive now trajectory_id frame_id sequence = (refl, refl)

abbrev pub is_some : {A : Type 0} → Option A → Bool
is_some none = false
is_some (some a) = true

with_last : (a b c : Bool) {d : Bool} → a && b && c ≡ true → d ≡ true → a && b && d ≡ true
with_last a b c h e = ground arith

-- The second frame's package is sensitive for the sanitizer.
abbrev pub quarantines : Option (Readings × Pipeline) → Bool
quarantines none = false
quarantines (some (clock, p)) = is_some (lookup (text "com.example.bank") p.sensitive_packages)

module _ (matches : Pattern → Str → Bool) (P : Platform) (G : ReplayGuard) (K : Sink)
    (unmarshal : Str → Option RawFrame) (or_zero : Option SanitizedFrame → SanitizedFrame) where
  abbrev S : Sanitizer
  S = timed_pipeline matches P

  -- All parts of the service are there, and its sanitizer quarantines the bank.
  abbrev pub is_ready : Service G (timed_pipeline matches P) K → Bool
  is_ready s = is_some s.verifier && is_some s.storage && quarantines s.sanitizer

  store-ready :
      (e : SignedEnvelope) (f : SanitizedFrame) (o : Outcome) (k : K.State) (s : Service G S K)
      → is_ready s ≡ true
      → is_ready (store G S K P unmarshal e f o k s).1 ≡ true
  unfolding store
  store-ready e f o k s h = ground arith

  decide-ready :
      (e : SignedEnvelope) (x : Processed) (k : K.State) (s : Service G S K)
      → is_ready s ≡ true
      → is_ready (decide G S K P unmarshal e or_zero x k s).1 ≡ true
  unfolding decide
  decide-ready e x k s h = ground (arith, store-ready e (or_zero x.outcome.frame) x.outcome k s h)

  process-quarantines :
      (z : Readings × Pipeline) (frame : RawFrame)
      → quarantines (some z) ≡ true
      → quarantines (some (S.process frame z).0) ≡ true
  unfolding process with_defaults
  process-quarantines z frame h = h

  decode-ready :
      (e : SignedEnvelope) (z : Readings × Pipeline) (k : K.State) (s : Service G S K)
      → quarantines (some z) ≡ true
      → is_ready s ≡ true
      → is_ready (decode G S K P unmarshal e or_zero z k s).1 ≡ true
  unfolding decode sanitize
  decode-ready e z k s hz h = elim (Option-cases (unmarshal e.payload)) [
    | inl x ↦ rw (x, decode) h
    | inr (raw, x) ↦ elim (Option-cases (bind_envelope_to_frame e raw)) [
      | inl y ↦ rw (x, decode) (rw (y, decode) h)
      | inr (frame, y) ↦
          rw (x, decode)
            (rw (y, decode)
              (decide-ready e _ k _ (
                with_last (is_some s.verifier) (is_some s.storage) (quarantines s.sanitizer) h
                  (process-quarantines z (with_signature e frame) hz))))
    ]
  ]

  refuse_auth-ready :
      (e : SignedEnvelope) (failed : Error) (s : Service G S K)
      → is_ready s ≡ true
      → is_ready (refuse_auth G S K P unmarshal e failed s).1 ≡ true
  unfolding refuse_auth
  refuse_auth-ready e failed s h = ground arith

  with_verifier-ready :
      (v : Verifier G) (s : Service G S K)
      → is_ready s ≡ true
      → is_ready (record s { verifier = some v }) ≡ true
  with_verifier-ready v s h = ground arith

  pub ready-quarantines :
      (s : Service G S K) (z : Readings × Pipeline)
      → s.sanitizer ≡ some z
      → is_ready s ≡ true
      → quarantines (some z) ≡ true
  ready-quarantines s z y h = subst (λ x. quarantines x ≡ true) y (ground arith)

  pub ingest_frame-ready :
      (c : Call) (e : SignedEnvelope) (s : Service G S K)
      → is_ready s ≡ true
      → is_ready (ingest_frame G S K P unmarshal c or_zero (some e) s).1 ≡ true
  unfolding ingest_frame authorize refuse_auth
  ingest_frame-ready c e s h = elim (Option-cases s.verifier) [
    | inl x ↦ absurd (ground arith)
    | inr (v, x) ↦ elim (Option-cases s.sanitizer) [
      | inl y ↦ absurd (ground arith)
      | inr (z, y) ↦ elim (Option-cases s.storage) [
        | inl t ↦ absurd (ground arith)
        | inr (k, t) ↦
            elim (Option-cases
              (verify P G c.now c.now' e (peer_certificate_fingerprint P c.peer) v).0) [
                | inr (failed, u) ↦
                    rw (served-refused G S K P unmarshal or_zero c e s v z k x y t failed u) (
                      refuse_auth-ready e failed _ (
                        with_verifier-ready
                          (verify P G c.now c.now' e (peer_certificate_fingerprint P c.peer) v).1 s
                          h))
                | inl u ↦ rw (served-decode G S K P unmarshal or_zero c e s v z k x y t u) (
                    decode-ready e z k _ (ready-quarantines s z y h) (
                      with_verifier-ready
                        (verify P G c.now c.now' e (peer_certificate_fingerprint P c.peer) v).1 s
                        h))
              ]
      ]
    ]
  ]
