-- ===== src/Auth/Guard.antt =====
-- server/internal/auth/auth.go: the interface of a replay guard, and what follows for every guard
-- whose state stands for a log of accepted frames.
use golem_harness.Base.{ℕ, Str, ◌≡◌, true, Option, none, List, [], ◌∷◌, Option-cases, inl, inr}
use golem_harness.Errors.{Error}
use golem_harness.Auth.Log.{Frame, Log, is_fresh, logged, NoReplay, fresh-Follows}

-- type ReplayGuard interface: the guard's state goes in and comes back.
pub record ReplayGuard : Type 1 where
  pub State : Type 0
  pub check_and_record : Str → Str → ℕ → State → Option Error × State

module _ (G : ReplayGuard) where
  abbrev pub ask : Frame → G.State → Option Error × G.State
  ask r = G.check_and_record r.device r.id r.sequence

  -- The promise: a state stands for a log, a call keeps the log of what it accepts, and only fresh
  -- frames are accepted.
  pub record IsGuard : Type 1 where
    pub Represents : G.State → Log → Type 0
    pub kept :
        (r : Frame) (g : G.State) (log : Log)
        → Represents g log
        → Represents (ask r g).1 (logged log r (ask r g).0)
    pub fresh :
        (r : Frame) (g : G.State) (log : Log)
        → Represents g log
        → (ask r g).0 ≡ none
        → is_fresh log r ≡ true

  -- A run of calls; what has been accepted is put in front of `log`.
  unfoldable pub run : List Frame → G.State → Log → Log × G.State
  run [] g log = (log, g)
  run (r ∷ rs) g log = run rs (ask r g).1 (logged log r (ask r g).0)

  module _ (I : IsGuard) where
    pub logged-NoReplay :
        (r : Frame) (g : G.State) (log : Log)
        → I.Represents g log
        → NoReplay log
        → NoReplay (logged log r (ask r g).0)
    logged-NoReplay r g log rep h = elim (Option-cases (ask r g).0) [
      | inl e ↦ rw e (fresh-Follows r log (I.fresh r g log rep e), h)
      | inr (x, e) ↦ rw e h
    ]

    -- Over any run of calls, no frame id is accepted twice from a device, and the sequences
    -- accepted from it strictly increase.
    pub run-NoReplay :
        (rs : List Frame) (g : G.State) (log : Log)
        → I.Represents g log
        → NoReplay log
        → NoReplay (run rs g log).0
    unfolding run
    run-NoReplay [] g log rep h = h
    run-NoReplay (r ∷ rs) g log rep h =
        run-NoReplay rs (ask r g).1 (logged log r (ask r g).0) (I.kept r g log rep)
          (logged-NoReplay r g log rep h)

    -- The state after a run stands for what has been accepted.
    pub run-Represents :
        (rs : List Frame) (g : G.State) (log : Log)
        → I.Represents g log
        → I.Represents (run rs g log).1 (run rs g log).0
    unfolding run
    run-Represents [] g log rep = rep
    run-Represents (r ∷ rs) g log rep =
        run-Represents rs (ask r g).1 (logged log r (ask r g).0) (I.kept r g log rep)
