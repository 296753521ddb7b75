-- ===== src/Client/Wire.antt =====
-- What the client sees of the service's answers.
use golem_harness.Base.{text, ◌≡◌, refl, ap, ◌∙◌, true, false, some, [], arith}
use golem_harness.Clock.{is_zero}
use golem_harness.Errors.{ok, err, malformed}
use golem_harness.Trajectory.{accept, drop, quarantine, other}
use golem_harness.Signing.{SignedEnvelope}
use golem_harness.Signing.Proto.{
  Timestamps, envelope_from_proto, envelope_to_proto, envelope_round_trip, decision_to_proto,
  decision_from_proto,
}
use golem_harness.Ingest.Calls.{Response, Reply, response, failure, crash}
use golem_harness.Client.{
  response_to_proto, response_from_proto, client_of, wire_of, answered, refused, no_reply,
  ClientReply, grpc_ingest_frame, client_ingest_frame,
}

-- The response as the wire leaves it: a decision that is none of the three becomes the empty text.
abbrev pub carried : Response → Response
carried r = record r {
  decision = elim r.decision [
    | accept ↦ accept
    | drop ↦ drop
    | quarantine ↦ quarantine
    | other s ↦ other []
  ];
}

-- What the client should see of a service's reply.
abbrev pub seen_of : Reply → ClientReply
seen_of (response r) = answered (carried r)
seen_of (failure status) = refused status
seen_of crash = no_reply

response-carried :
    (r : Response) → response_from_proto (some (response_to_proto (some r))) ≡ carried r
unfolding response_from_proto response_to_proto decision_from_proto decision_to_proto text
response-carried r = ground arith

client_of-wire_of : (reply : Reply) → client_of (wire_of reply) ≡ seen_of reply
client_of-wire_of (response r) = ap answered (response-carried r)
client_of-wire_of (failure status) = refl
client_of-wire_of crash = refl

module _ (T : Timestamps) {State : Type 0} (ingest : SignedEnvelope → State → Reply × State) where
  -- A client that sends an envelope whose time is set, to a server with a service, sees the
  -- service's reply to that same envelope, its decision carried over the wire, and leaves the
  -- service in the state of that one call, where the timestamp of the envelope's time reads back
  -- as that time.
  pub client_ingest_frame_exact :
      (e : SignedEnvelope) (s : State)
      → is_zero e.signed_at ≡ false
      → T.as_time (T.new e.signed_at) ≡ e.signed_at
      → client_ingest_frame T ingest (some e) (some s)
        ≡ (seen_of (ingest e s).0, some (ingest e s).1)
  unfolding client_ingest_frame grpc_ingest_frame
  client_ingest_frame_exact e s set exact =
      let arrives : envelope_from_proto T (some (envelope_to_proto T e)) ≡ ok e =
        envelope_round_trip T e exact ∙ rw set in
      rw arrives (ap (λ x. (x, some (ingest e s).1)) (client_of-wire_of (ingest e s).0))

  -- An envelope whose time is not set is refused before the service, whose state stays as it was.
  pub client_ingest_frame_unset :
      (e : SignedEnvelope) (s : State)
      → is_zero e.signed_at ≡ true
      → T.as_time (T.new e.signed_at) ≡ e.signed_at
      → (client_ingest_frame T ingest (some e) (some s)).1 ≡ some s
  unfolding client_ingest_frame grpc_ingest_frame
  client_ingest_frame_unset e s unset exact =
      let arrives : envelope_from_proto T (some (envelope_to_proto T e))
          ≡ err (malformed (text "signed_at is required")) =
        envelope_round_trip T e exact ∙ rw unset in
      rw arrives
