-- ===== src/MockClient/Sending.antt =====
-- mock-client/main.go: what comes of the second frame of a run.
use mathlib.Core.Path.{subst}
use golem_harness.Base.{
  ℕ, Str, text, ◌≡◌, ◌≢◌, refl, sym, ap, ◌∙◌, Bool, true, false, Option, some, [], ◌++◌, arith,
  Option-cases, inl, inr,
}
use golem_harness.Base.Dict.{lookup}
use golem_harness.Clock.{Time, is_zero}
use golem_harness.Errors.{ok, Result-cases}
use golem_harness.Platform.{Platform}
use golem_harness.Trajectory.{Decision, accept, quarantine, RawFrame, SanitizedFrame}
use golem_harness.Signing.{SignedEnvelope}
use golem_harness.Signing.Proto.{Timestamps}
use golem_harness.Auth.Guard.{ReplayGuard}
use golem_harness.Sanitize.Redactor.{Pattern}
use golem_harness.Sanitize.Outcomes.{Pipeline}
use golem_harness.Sanitize.Process.Decisions.{package_of, process_sensitive}
use golem_harness.Ingest.{Service}
use golem_harness.Ingest.Timed.{Readings, timed_pipeline, TimedService, timed_ingest}
use golem_harness.Ingest.Bind.{filled, bind_exact}
use golem_harness.Ingest.Calls.{
  Sanitizer, Sink, Reply, Response, response, failure, crash, Call, with_signature,
}
use golem_harness.Ingest.Storing.{ingest_frame-accept}
use golem_harness.MockClient.Ready.{
  is_ready, quarantines, ingest_frame-ready, ready-quarantines, synthetic_frame-sensitive,
}
use golem_harness.Client.{
  build_signed_envelope_with_key, ClientReply, answered, refused, no_envelope, no_reply,
}
use golem_harness.Client.Built.{built-Agrees, built-signed_at}
use golem_harness.Client.Wire.{client_ingest_frame_exact, carried, seen_of}
use golem_harness.MockClient.{
  response_of, send, send_sensitive, send_both, run, finished, load_or_create_keypair,
  new_trajectory_id, KeyFiles, synthetic_frame, Given, sensitive_frame, allowed_frame,
  sequence_base, next_sequence,
}

seen_of-answered :
    (x : Reply) (r : Response)
    → seen_of x ≡ answered r
    → (reply : Response) × (x ≡ response reply) × (r ≡ carried reply)
seen_of-answered (response reply) r h = (reply, refl, cc)
seen_of-answered (failure status) r h = absurd (cc)
seen_of-answered crash r h = absurd (cc)

injective : {a b : RawFrame} → ◌≡◌ {A = Option RawFrame} (some a) (some b) → a ≡ b
injective e = cc

bank_ne_nil : text "com.example.bank" ≢ []
unfolding text
bank_ne_nil e = cc

accept_ne_quarantine : ◌≢◌ {A = Decision} accept quarantine
accept_ne_quarantine e = cc

response_of-some : (x : ClientReply) (r : Response) → response_of x ≡ some r → x ≡ answered r
response_of-some (answered a) r h = cc
response_of-some (refused status) r h = absurd (cc)
response_of-some no_envelope r h = absurd (cc)
response_of-some no_reply r h = absurd (cc)

module _ (matches : Pattern → Str → Bool) (P : Platform) (G : ReplayGuard) (K : Sink)
    (unmarshal : Str → Option RawFrame) (or_zero : Option SanitizedFrame → SanitizedFrame)
    (F : KeyFiles) (marshal : RawFrame → Option Str) (T : Timestamps) where
  abbrev pub S : Sanitizer
  S = timed_pipeline matches P

  abbrev pub serve :
      SignedEnvelope
      → TimedService G (timed_pipeline matches P) K P unmarshal or_zero
      → Reply × TimedService G (timed_pipeline matches P) K P unmarshal or_zero
  serve = timed_ingest G S K P unmarshal or_zero

  -- What stands behind an answer that a frame got.
  record IsSent (private_key : Str) (signs : Time) (frame : RawFrame)
      (state : TimedService G S K P unmarshal or_zero) (r : Response)
      (after : Option (TimedService G S K P unmarshal or_zero)) : Type 0 where
    envelope : SignedEnvelope
    built :
        build_signed_envelope_with_key P marshal private_key signs frame (text "mock-key") []
        ≡ ok envelope
    reply : Response
    replied : (serve envelope state).0 ≡ response reply
    seen : r ≡ carried reply
    moved : after ≡ some (serve envelope state).1

  send-IsSent :
      (private_key : Str) (signs : Time) (frame : RawFrame)
      (state : TimedService G S K P unmarshal or_zero) (r : Response)
      → is_zero signs ≡ false
      → T.as_time (T.new signs) ≡ signs
      → (send P F marshal T serve private_key signs frame (some state)).0 ≡ some r
      → IsSent private_key signs frame state r
          (send P F marshal T serve private_key signs frame (some state)).1
  unfolding send
  send-IsSent private_key signs frame state r set exact h =
      elim (Result-cases
        (build_signed_envelope_with_key P marshal private_key signs frame (text "mock-key") [])) [
          | inr (failed, e) ↦ absurd (ground arith)
          | inl (envelope, e) ↦
              let time =
                built-signed_at P marshal private_key signs frame (text "mock-key") [] envelope e in
              let sent =
                client_ingest_frame_exact T serve envelope state (ap is_zero time ∙ set)
                  (ap (λ t. T.as_time (T.new t)) time ∙ (exact ∙ sym time)) in
              let answer = response_of-some _ r (rw (e, send) at h) in
              let (reply, replied, seen) =
                seen_of-answered _ r (sym (ap (λ q. q.0) sent) ∙ answer) in
              record {
                envelope = envelope;
                built = e;
                reply = reply;
                replied = replied;
                seen = seen;
                moved = rw (e, send) (ap (λ q. q.1) sent);
              }
        ]

  -- JSON takes back what it encoded of the frame.
  abbrev pub Decodes : RawFrame → Type 0
  Decodes frame = (payload : Str) → marshal frame ≡ some payload → unmarshal payload ≡ some frame

  carried-accepts : (r : Response) → (carried r).decision ≡ accept → r.decision ≡ accept
  carried-accepts r h = ground arith

  bank_contradiction :
      (z : Readings × Pipeline) (frame : RawFrame)
      → package_of frame ≡ text "com.example.bank"
      → quarantines (some z) ≡ true
      → (S.process frame z).1.outcome.decision ≢ accept
  unfolding text
  bank_contradiction z frame named known accepted =
      elim (Option-cases (lookup (text "com.example.bank") z.1.sensitive_packages)) [
        | inl e ↦ absurd (ground arith)
        | inr (reason, e) ↦
            let q =
              process_sensitive matches P (z.0 0) z.1 frame reason
                (λ empty. absurd (bank_ne_nil (sym named ∙ empty)))
                (ap (λ a. lookup a z.1.sensitive_packages) named ∙ e) in
            absurd (accept_ne_quarantine (sym accepted ∙ q.0))
      ]

  bank_refused :
      (private_key : Str) (signs now : Time) (id frame_id : Str) (n : ℕ) (calls : ℕ → Call)
      (s : Service G S K) (r : Response) (after : Option (TimedService G S K P unmarshal or_zero))
      → is_ready matches P G K unmarshal or_zero s ≡ true
      → Decodes (synthetic_frame now id frame_id n (text "com.example.bank"))
      → IsSent private_key signs
          (synthetic_frame now id frame_id n (text "com.example.bank"))
          (calls, s)
          r
          after
      → r.decision ≢ accept
  unfolding timed_ingest
  bank_refused private_key signs now id frame_id n calls s r after ready decodes x says =
      elim (Option-cases s.verifier) [
        | inl e ↦ absurd (ground arith)
        | inr (v, hv) ↦ elim (Option-cases s.sanitizer) [
          | inl e ↦ absurd (ground arith)
          | inr (z, hz) ↦ elim (Option-cases s.storage) [
            | inl e ↦ absurd (ground arith)
            | inr (k, hk) ↦
                let frame = synthetic_frame now id frame_id n (text "com.example.bank") in
                let (cleared, wrote) =
                  ingest_frame-accept G S K P unmarshal or_zero (calls 0) x.envelope s v z k hv hz
                    hk x.reply x.replied
                    (carried-accepts x.reply (ap (λ q. q.decision) (sym x.seen) ∙ says)) in
                let (decoded, agrees) =
                  built-Agrees P marshal private_key signs frame (text "mock-key") [] x.envelope
                    unmarshal decodes x.built in
                let same_raw : ◌≡◌ {A = RawFrame} cleared.raw frame =
                  injective (sym cleared.decoded ∙ decoded) in
                let same_frame =
                  ((bind_exact x.envelope cleared.raw cleared.frame).0 cleared.agreed).2 in
                bank_contradiction z (with_signature x.envelope cleared.frame)
                  (ap (λ f. package_of (with_signature x.envelope f)) same_frame
                    ∙ (ap (λ q. package_of (with_signature x.envelope (filled x.envelope q)))
                          same_raw
                        ∙ (synthetic_frame-sensitive now id frame_id n).0))
                  (ready-quarantines matches P G K unmarshal or_zero s z hz ready)
                  cleared.written.accepted
          ]
        ]
      ]

  send_sensitive-refused :
      (now : Given) (private_key id : Str) (first first' second : Response) (calls : ℕ → Call)
      (s : Service G S K)
      → is_ready matches P G K unmarshal or_zero s ≡ true
      → Decodes (sensitive_frame P F marshal T serve now id)
      → is_zero now.signs_sensitive ≡ false
      → T.as_time (T.new now.signs_sensitive) ≡ now.signs_sensitive
      → (send_sensitive P F marshal T serve now private_key id first (some (calls, s))).0
        ≡ finished first' second
      → second.decision ≢ accept
  unfolding send_sensitive
  send_sensitive-refused now private_key id first first' second calls s ready decodes set exact h =
      elim (Option-cases
        (send P F marshal T serve private_key now.signs_sensitive
          (sensitive_frame P F marshal T serve now id) (some (calls, s))).0) [
            | inl e ↦ absurd (ground arith)
            | inr (r, e) ↦
                let sent = send-IsSent private_key now.signs_sensitive _ (calls, s) r set exact e in
                let same : ◌≡◌ {A = Response} r second = ground arith in
                subst (λ q. q.decision ≢ accept) same
                  (bank_refused private_key now.signs_sensitive now.at_sensitive id
                    (id ++ text "-sensitive") (next_sequence (sequence_base now)) calls s r _ ready
                    decodes sent)
          ]

  send_both-refused :
      (now : Given) (private_key id : Str) (first second : Response) (calls : ℕ → Call)
      (s : Service G S K)
      → is_ready matches P G K unmarshal or_zero s ≡ true
      → Decodes (sensitive_frame P F marshal T serve now id)
      → T.as_time (T.new now.signs_allowed) ≡ now.signs_allowed
      → T.as_time (T.new now.signs_sensitive) ≡ now.signs_sensitive
      → is_zero now.signs_allowed ≡ false
      → is_zero now.signs_sensitive ≡ false
      → (send_both P F marshal T serve now private_key id (some (calls, s))).0
        ≡ finished first second
      → second.decision ≢ accept
  unfolding send_both timed_ingest
  send_both-refused now private_key id first second calls s ready decodes exact exact' set set' h =
      elim (Option-cases
        (send P F marshal T serve private_key now.signs_allowed
          (allowed_frame P F marshal T serve now id) (some (calls, s))).0) [
            | inl e ↦ absurd (ground arith)
            | inr (r, e) ↦
                let sent = send-IsSent private_key now.signs_allowed _ (calls, s) r set exact e in
                let (calls', s') = (serve sent.envelope (calls, s)).1 in
                let ready' =
                  ingest_frame-ready matches P G K unmarshal or_zero (calls 0) sent.envelope s
                    ready in
                send_sensitive-refused now private_key id r first second calls' s' ready' decodes
                  set' exact'
                  (ap (λ q. (send_sensitive P F marshal T serve now private_key id r q).0)
                      (sym sent.moved)
                    ∙ (rw (e, send_both) at h))
          ]

  -- With any service that has all its parts and a sanitizer for which com.example.bank is
  -- sensitive: if both frames of a run of the mock client are answered, the answer to the second
  -- is not accept, where decoding takes back the encoding of the second frame, with the trajectory
  -- id of the run, the timestamps of the two times of signing read back, and neither is the zero
  -- time.
  pub run_bank_refused :
      (now : Given) (key_dir : Str) (files : F.State) (calls : ℕ → Call) (s : Service G S K)
      (first second : Response)
      → is_ready matches P G K unmarshal or_zero s ≡ true
      → ((id : Str)
          → new_trajectory_id now.random now.at_trajectory ≡ some id
          → Decodes (sensitive_frame P F marshal T serve now id))
      → T.as_time (T.new now.signs_allowed) ≡ now.signs_allowed
      → T.as_time (T.new now.signs_sensitive) ≡ now.signs_sensitive
      → is_zero now.signs_allowed ≡ false
      → is_zero now.signs_sensitive ≡ false
      → (run P F marshal T serve now key_dir files (some (calls, s))).0.0 ≡ finished first second
      → second.decision ≢ accept
  unfolding run
  run_bank_refused now key_dir files calls s first second ready decodes exact exact' set set' h =
      elim (Result-cases (load_or_create_keypair P F key_dir files).0) [
        | inr (failed, e) ↦ absurd (ground arith)
        | inl ((public_key, private_key), e) ↦
            elim (Option-cases (new_trajectory_id now.random now.at_trajectory)) [
              | inl e' ↦ absurd (ground arith)
              | inr (id, e') ↦
                  send_both-refused now private_key id first second calls s ready (decodes id e')
                    exact exact' set set' (rw (e', run) at (rw (e, run) at h))
            ]
      ]
