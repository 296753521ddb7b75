-- ===== src/Auth/Replays.antt =====
-- server/internal/auth/auth.go: whole runs of Verify accept no frame twice.
use mathlib.Core.Path.{subst}
use golem_harness.Base.{Str, ◌≡◌, Option, none, some, List, [], ◌∷◌, Option-cases, inl, inr}
use golem_harness.Clock.{Time}
use golem_harness.Errors.{Error, Result, ok, err}
use golem_harness.Platform.{Platform}
use golem_harness.Signing.{SignedEnvelope}
use golem_harness.Auth.{Verifier, authenticate, verify, guarded, record_frame}
use golem_harness.Auth.Log.{Frame, Log, NoReplay, logged}
use golem_harness.Auth.Guard.{ReplayGuard, IsGuard, logged-NoReplay}

-- The frame of an envelope, as the replay guard is given it.
abbrev pub frame_of : SignedEnvelope → Frame
frame_of e = record { device = e.device_id; id = e.frame_id; sequence = e.sequence }

-- A call of Verify: the two readings of the clock, the peer's fingerprint and the envelope.
pub record Attempt : Type 0 where
  pub now : Time
  pub now' : Time
  pub peer : Str
  pub envelope : SignedEnvelope

module _ (P : Platform) (G : ReplayGuard) where
  abbrev pub attempt : Attempt → Verifier G → Option Error × Verifier G
  attempt a v = verify P G a.now a.now' a.envelope a.peer v

  -- A run of calls; the frames of the envelopes that are accepted are put in front of `log`.
  unfoldable pub verify_all : List Attempt → Verifier G → Log → Log × Verifier G
  verify_all [] v log = (log, v)
  verify_all (a ∷ rest) v log =
      verify_all rest (attempt a v).1 (logged log (frame_of a.envelope) (attempt a v).0)

  module _ (I : IsGuard G) where
    abbrev pub Stands : Option G.State → Log → Type 0
    Stands none log = Unit
    Stands (some g) log = I.Represents g log

    -- The verifier's replay guard, if it has one, stands for the log.
    abbrev pub Knows : Verifier G → Log → Type 0
    Knows v log = Stands v.replay_guard log

    guarded-kept :
        (x : Result (Unit {0})) (e : SignedEnvelope) (v : Verifier G) (g : G.State) (log : Log)
        → v.replay_guard ≡ some g
        → I.Represents g log
        → NoReplay log
        → Knows (guarded P G x e v g).1 (logged log (frame_of e) (guarded P G x e v g).0)
          × NoReplay (logged log (frame_of e) (guarded P G x e v g).0)
    unfolding guarded record_frame
    guarded-kept (err failed) e v g log has rep h = (rw has rep, h)
    guarded-kept (ok _) e v g log has rep h =
        (I.kept (frame_of e) g log rep, logged-NoReplay G I (frame_of e) g log rep h)

    pub attempt-kept :
        (a : Attempt) (v : Verifier G) (log : Log)
        → Knows v log
        → NoReplay log
        → Knows (attempt a v).1 (logged log (frame_of a.envelope) (attempt a v).0)
          × NoReplay (logged log (frame_of a.envelope) (attempt a v).0)
    unfolding verify
    attempt-kept a v log rep h = elim (Option-cases v.registry) [
      | inl x ↦ rw (x, verify) (rep, h)
      | inr (lookup, x) ↦ elim (Option-cases v.replay_guard) [
        | inl y ↦ rw (x, verify) (rw (y, verify) (rep, h))
        | inr (g, y) ↦
            rw (x, verify)
              (rw (y, verify)
                (guarded-kept
                  (authenticate P lookup v.max_payload_bytes v.ttl a.now a.now' a.envelope a.peer)
                  a.envelope v g log y (subst (λ r. Stands r log) y rep) h))
      ]
    ]

    -- Over any run of calls of Verify, no frame id is accepted twice from a device, and the
    -- sequences accepted from it strictly increase, if the verifier's guard keeps its promise and
    -- stands for a log of which this holds already.
    pub verify_all-NoReplay :
        (attempts : List Attempt) (v : Verifier G) (log : Log)
        → Knows v log
        → NoReplay log
        → NoReplay (verify_all attempts v log).0
    unfolding verify_all
    verify_all-NoReplay [] v log rep h = h
    verify_all-NoReplay (a ∷ rest) v log rep h =
        let (rep', h') = attempt-kept a v log rep h in
        verify_all-NoReplay rest (attempt a v).1 (logged log (frame_of a.envelope) (attempt a v).0)
          rep' h'
