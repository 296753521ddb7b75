-- ===== src/Auth/Memory/Laws.antt =====
-- MemoryReplayGuard implements the log of accepted frames, with its bound on the frames kept.
use golem_harness.Base.{
  ℕ, Str, text, is_empty, ◌≡◌, refl, sym, ◌∙◌, true, ◌||◌, not, Option, none, some, List, [], ◌∷◌,
  arith, length, str_eq, str_eq_iff, leb, Option-cases, inl, inr, if◌then◌else◌,
}
use golem_harness.Base.Dict.{lookup, lookup-insert}
use golem_harness.Errors.{Error, malformed, replay, replay_state_full}
use golem_harness.Auth.Log.{
  Frame, Log, frame_seen, max_sequence, accepted_count, is_fresh, logged, NoReplay,
}
use golem_harness.Auth.Guard.{ReplayGuard, IsGuard, run, run-NoReplay}
use golem_harness.Auth.Memory.{
  ReplayState, MemoryReplayGuard, new_state, contains, ensure, limit_of, check_and_record,
}

-- The entry of a device, or a new one.
abbrev state_of : Str → MemoryReplayGuard → ReplayState
state_of d g = elim (lookup d g.devices) [ none ↦ new_state | some state ↦ state ]

-- The guard's entries are those of the log.
pub record Represents (g : MemoryReplayGuard) (log : Log) : Type 0 where
  pub max_of : (d : Str) → (state_of d g).max_sequence ≡ max_sequence log d
  pub seen_of : (d f : Str) → contains f (state_of d g).seen_frames ≡ frame_seen log d f
  pub count_of : (d : Str) → length (state_of d g).seen_frames ≡ accepted_count log d

pub Represents-new : (limit : MemoryReplayGuard) → Represents (record limit { devices = [] }) []
unfolding lookup contains frame_seen max_sequence accepted_count
Represents-new limit = record { max_of = λ d. refl; seen_of = λ d f. refl; count_of = λ d. refl }

-- The answer that the log calls for, when at most `limit` frames of a device are kept.
unfoldable pub answer : ℕ → Log → Frame → Option Error
answer limit log r =
    if is_empty r.device || is_empty r.id
    then some (malformed (text "device id and frame id are required"))
    else if not (is_fresh log r)
    then some replay
    else if leb limit (accepted_count log r.device)
    then some replay_state_full
    else none

abbrev check : Frame → MemoryReplayGuard → Option Error × MemoryReplayGuard
check r = check_and_record r.device r.id r.sequence

-- A memory guard that stands for a log answers as the log calls for: malformed without ids, a
-- replay unless the frame is fresh, full at the bound, and otherwise none.
pub check_and_record-answer :
    (r : Frame) (g : MemoryReplayGuard) (log : Log)
    → Represents g log
    → (check r g).0 ≡ answer (limit_of g) log r
unfolding check_and_record answer ensure
check_and_record-answer r g log rep =
    ground (arith, rep.max_of r.device, rep.seen_of r.device r.id, rep.count_of r.device)

state_of-ensure : (d j : Str) (g : MemoryReplayGuard) → state_of j (ensure d g).1 ≡ state_of j g
unfolding ensure
state_of-ensure d j g = ground (arith, lookup-insert d j new_state g.devices, str_eq_iff d j)

ensure-state_of : (d : Str) (g : MemoryReplayGuard) → (ensure d g).0 ≡ state_of d g
unfolding ensure
ensure-state_of d g = ground arith

-- The entry of device `j` after an answer to `r`.
abbrev updated : Frame → Str → MemoryReplayGuard → Option Error → ReplayState
updated r j g none =
    if str_eq r.device j
    then record {
      max_sequence = r.sequence;
      seen_frames = r.id ∷ (state_of r.device g).seen_frames;
    }
    else state_of j g
updated r j g (some refusal) = state_of j g

-- A call changes the entry of its own device only, and only if it accepts.
state_of-check :
    (r : Frame) (j : Str) (g : MemoryReplayGuard)
    → state_of j (check r g).1 ≡ updated r j g (check r g).0
unfolding check_and_record
state_of-check r j g =
    let (state, g') = ensure r.device g in
    ground (
      arith,
      ensure-state_of r.device g,
      state_of-ensure r.device j g,
      lookup-insert r.device j
          (record { max_sequence = r.sequence; seen_frames = r.id ∷ state.seen_frames }) g'.devices,
    )

module _ (r : Frame) (g : MemoryReplayGuard) (log : Log) (rep : Represents g log) where
  answer-fresh : (limit : ℕ) → answer limit log r ≡ none → is_fresh log r ≡ true
  unfolding answer
  answer-fresh limit h = ground arith

  check-fresh : (check r g).0 ≡ none → is_fresh log r ≡ true
  check-fresh h = answer-fresh (limit_of g) (sym (check_and_record-answer r g log rep) ∙ h)

  check-Represents : Represents (check r g).1 (logged log r (check r g).0)
  unfolding frame_seen max_sequence accepted_count contains
  check-Represents = elim (Option-cases (check r g).0) [
    | inl e ↦
        let fresh = check-fresh e in
        record {
          max_of =
              λ d. rw (state_of-check, e) (ground (arith, rep.max_of d, str_eq_iff r.device d));
          seen_of = λ d f.
              rw (state_of-check, e)
                (ground (arith, rep.seen_of d f, str_eq_iff r.device d, str_eq_iff r.id f));
          count_of =
              λ d. rw (state_of-check, e) (ground (arith, rep.count_of d, str_eq_iff r.device d));
        }
    | inr (x, e) ↦ record {
      max_of = λ d. rw (state_of-check, e) (rep.max_of d);
      seen_of = λ d f. rw (state_of-check, e) (rep.seen_of d f);
      count_of = λ d. rw (state_of-check, e) (rep.count_of d);
    }
  ]

-- The guard as a value of the interface, which keeps its promise.
abbrev pub memory_guard : ReplayGuard
memory_guard = record { State = MemoryReplayGuard; check_and_record = check_and_record }

pub memory_guard-IsGuard : IsGuard memory_guard
memory_guard-IsGuard = record {
  Represents = Represents;
  kept = check-Represents;
  fresh = λ r g log rep h. check-fresh r g log rep h;
}

-- A guard without entries stands for the empty log.
pub memory_guard-starts :
    (limit : MemoryReplayGuard) → memory_guard-IsGuard.Represents (record limit { devices = [] }) []
unfolding memory_guard-IsGuard
memory_guard-starts limit = Represents-new limit

-- From a memory guard without entries and with any bound, whatever frames come in, no frame id is
-- accepted twice from a device, and the sequences accepted from it strictly increase.
pub memory_guard-NoReplay :
    (rs : List Frame) (limit : MemoryReplayGuard)
    → NoReplay (run memory_guard rs (record limit { devices = [] }) []).0
unfolding memory_guard-IsGuard
memory_guard-NoReplay rs limit =
    run-NoReplay memory_guard memory_guard-IsGuard rs (record limit { devices = [] }) []
      (Represents-new limit) tt
