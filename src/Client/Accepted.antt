-- ===== src/Client/Accepted.antt =====
-- From the client to the sink: the frame of an enrolled device is accepted.
use golem_harness.Base.{
  zero, suc, Str, ◌≡◌, ◌≢◌, refl, sym, ap, ◌∙◌, Bool, true, false, Option, none, some, List, [],
  length, arith,
}
use golem_harness.Base.Dict.{lookup}
use golem_harness.Base.Int.{pos, negsuc, ◌≤ℤ◌, ◌<ℤ◌}
use golem_harness.Clock.{Time, is_zero, max_duration}
use golem_harness.Errors.{ok}
use golem_harness.Platform.{Platform, IsLawful, seed_size}
use golem_harness.Strings.{contains}
use golem_harness.Trajectory.{accept, RawFrame, SanitizedFrame}
use golem_harness.Signing.{SignedEnvelope, lacks_ids, sign_envelope}
use golem_harness.Signing.Laws.{sign_envelope-IsSigned}
use golem_harness.Signing.Proto.{Timestamps}
use golem_harness.Auth.{Verifier, effective_ttl}
use golem_harness.Auth.Guard.{ReplayGuard}
use golem_harness.Auth.Registry.{Device}
use golem_harness.Auth.Checks.{CertMatches, TimeValid}
use golem_harness.Auth.Signed.{signed_authenticates, verify-passes}
use golem_harness.Sanitize.Redactor.{Pattern}
use golem_harness.Sanitize.Outcomes.{new_pipeline, or_else}
use golem_harness.Sanitize.Process.Decisions.{package_of, frame_of_accept}
use golem_harness.Ingest.{Service, ingest_frame}
use golem_harness.Ingest.Bind.{filled}
use golem_harness.Ingest.Calls.{Sink, Response, Call, with_signature, peer_certificate_fingerprint}
use golem_harness.Ingest.Private.{pipeline_sanitizer, or_frame}
use golem_harness.Storage.Paths.{validate_sanitized_frame}
use golem_harness.Storage.Writing.{validate-process}
use golem_harness.Ingest.Accepting.{ingest_frame-accepts, new_pipeline-accepts}
use golem_harness.Client.{
  envelope_of, build_signed_envelope_with_key, client_ingest_frame, answered,
}
use golem_harness.Client.Built.{built-Agrees}
use golem_harness.Client.Wire.{client_ingest_frame_exact, carried, seen_of}

-- The verifier knows the device of an envelope by the public half of the key, its key id and the
-- certificate of the connection.
pub record IsEnrolled (P : Platform) (known : Str → Option Device) (private_key peer : Str)
    (e : SignedEnvelope) : Type 0 where
  pub device : Device
  pub found : known e.device_id ≡ some device
  pub key : device.public_key ≡ P.public private_key
  pub key_id : device.public_key_id ≡ e.public_key_id
  pub cert : CertMatches device e peer

is_set : (t : Time) → t ≢ pos 0 → is_zero t ≡ false
is_set (pos zero) h = absurd (h refl)
is_set (pos (suc n)) h = ground arith
is_set (negsuc n) h = ground arith

carried-accept : (r : Response) → r.decision ≡ accept → (carried r).decision ≡ accept
carried-accept r h = rw h refl

-- A pipeline from NewPipeline reads the clock.
own_clock :
    (allowed sensitive : List Str) (clock : Time)
    → clock ≢ pos 0
    → or_else (new_pipeline allowed sensitive).now clock ≢ pos 0
unfolding new_pipeline
own_clock allowed sensitive clock h = h

module _ (P : Platform) (L : IsLawful P) (T : Timestamps) (matches : Pattern → Str → Bool)
    (clock : Time) (G : ReplayGuard) (K : Sink) (marshal : RawFrame → Option Str)
    (unmarshal : Str → Option RawFrame) (zero_frame : SanitizedFrame)
    (allowed sensitive : List Str) where
  module _ (c : Call) (s : Service G (pipeline_sanitizer matches P clock) K) (v : Verifier G)
      (k : K.State) (known : Str → Option Device) (g : G.State) (seed : Str) (at : Time)
      (frame : RawFrame) (key_id cert payload : Str) (e : SignedEnvelope) where
    abbrev private_key : Str
    private_key = P.new_key_from_seed seed

    abbrev unsigned : SignedEnvelope
    unsigned = envelope_of P marshal at frame key_id cert payload

    abbrev peer : Str
    peer = peer_certificate_fingerprint P c.peer

    signs :
        marshal frame ≡ some payload
        → build_signed_envelope_with_key P marshal private_key at frame key_id cert ≡ ok e
        → sign_envelope P private_key unsigned ≡ ok e
    unfolding build_signed_envelope_with_key
    signs m b = ground arith

    -- A frame that a client builds, signs and sends is answered accept by a configured service
    -- with a pipeline from NewPipeline, if the client's key was made from a seed of 32 bytes, the
    -- verifier's time to live is below the largest duration, the device is enrolled with the
    -- public half of the client's key, its key id and the connection's certificate, the time of
    -- signing is near the clock and its timestamp reads back, the envelope's identifiers and
    -- payload are not empty, the payload fits and decodes to the frame, the replay guard takes the
    -- frame, its package, trimmed, is not empty, not sensitive and allowed, the sanitizer's clock
    -- does not give the zero time, and the sink writes the frames that pass the storage's
    -- validation.
    pub client_accepted :
        s.verifier ≡ some v
        → s.sanitizer ≡ some (new_pipeline allowed sensitive)
        → s.storage ≡ some k
        → v.registry ≡ some known
        → v.replay_guard ≡ some g
        → effective_ttl v.ttl <ℤ max_duration
        → marshal frame ≡ some payload
        → unmarshal payload ≡ some frame
        → build_signed_envelope_with_key P marshal private_key at frame key_id cert ≡ ok e
        → length seed ≡ seed_size
        → IsEnrolled P known private_key peer unsigned
        → TimeValid v.ttl c.now c.now' unsigned
        → T.as_time (T.new at) ≡ at
        → lacks_ids unsigned ≡ false
        → payload ≢ []
        → (pos 0 <ℤ v.max_payload_bytes → pos (length payload) ≤ℤ v.max_payload_bytes)
        → (G.check_and_record frame.device.device_id frame.frame_id frame.sequence g).0 ≡ none
        → package_of frame ≢ []
        → lookup (package_of frame) (new_pipeline allowed sensitive).sensitive_packages ≡ none
        → contains (package_of frame) (new_pipeline allowed sensitive).allowed_packages ≡ true
        → clock ≢ pos 0
        → ((f : SanitizedFrame)
            → validate_sanitized_frame f ≡ none
            → (K.write_sanitized_frame f k).0 ≡ false)
        → (r : Response) × ((client_ingest_frame T
              (λ x.
                ingest_frame G
                  (pipeline_sanitizer matches P clock)
                  K
                  P
                  unmarshal
                  c
                  (or_frame zero_frame)
                  (some x))
              (some e)
              (some s)).0
            ≡ answered r)
          × (r.decision ≡ accept)
    client_accepted hv hz hk hr hg bound m decodes b seeded enrolled time exact ids present fits
          fresh named insensitive known_app ticks writes =
        let signed = signs m b in
        let x = sign_envelope-IsSigned P private_key unsigned e signed in
        let passed =
          signed_authenticates P L known v.max_payload_bytes v.ttl c.now c.now' peer seed unsigned e
            enrolled.device signed seeded bound enrolled.found enrolled.key enrolled.key_id
            enrolled.cert ids present fits time in
        let verified =
          verify-passes P G c.now c.now' peer e v known g hr hg passed
            (ap (λ q. (G.check_and_record q.device_id q.frame_id q.sequence g).0) x.kept ∙ fresh) in
        let (decoded, agrees) =
          built-Agrees P marshal private_key at frame key_id cert e unmarshal (λ y h. cc) b in
        let (accepted, fine) =
          new_pipeline-accepts matches P clock allowed sensitive (with_signature e (filled e frame))
            named insensitive known_app in
        let sent_frame = with_signature e (filled e frame) in
        let (f, has) =
          frame_of_accept matches P clock (new_pipeline allowed sensitive) sent_frame accepted in
        let valid =
          validate-process matches P clock (new_pipeline allowed sensitive) sent_frame f
            (own_clock allowed sensitive clock ticks) has in
        let wrote =
          ap (λ y. (K.write_sanitized_frame (or_frame zero_frame y) k).0) has ∙ writes f valid in
        let (r, replied, says) =
          ingest_frame-accepts G (pipeline_sanitizer matches P clock) K P unmarshal
            (or_frame zero_frame) c e s v (new_pipeline allowed sensitive) k hv hz hk frame verified
            decoded agrees accepted fine wrote in
        let kept_time = ap (λ q. q.signed_at) x.kept in
        let sent =
          client_ingest_frame_exact T
            (λ y.
              ingest_frame G (pipeline_sanitizer matches P clock) K P unmarshal c
                (or_frame zero_frame) (some y))
            e s (ap is_zero kept_time ∙ is_set at time.set)
            (ap (λ t. T.as_time (T.new t)) kept_time ∙ (exact ∙ sym kept_time)) in
        (carried r, ap (λ q. q.0) sent ∙ ap seen_of replied, carried-accept r says)
