-- ===== src/Auth/Memory.antt =====
-- server/internal/auth/auth.go: MemoryReplayGuard. The mutex makes each call one step.
pub mod Laws
use golem_harness.Base.{
  ℕ, Str, text, is_empty, Bool, false, ◌||◌, Option, none, some, List, [], ◌∷◌, length, str_eq, ltb,
  leb, if◌then◌else◌,
}
use golem_harness.Base.Int.{ℤ, pos, pos_part, ltb_ℤ}
use golem_harness.Base.Dict.{Dict, lookup, insert}
use golem_harness.Errors.{Error, malformed, replay, replay_state_full}

-- type replayState; the keys of seenFrames, which are distinct
pub record ReplayState : Type 0 where
  pub max_sequence : ℕ
  pub seen_frames : List Str

-- type MemoryReplayGuard
pub record MemoryReplayGuard : Type 0 where
  pub devices : Dict ReplayState
  pub max_seen_frames : ℤ

-- MaxMemorySeenFrames
abbrev pub max_memory_seen_frames : ℕ
max_memory_seen_frames = 100_000

-- NewMemoryReplayGuard
abbrev pub new_memory_replay_guard : MemoryReplayGuard
new_memory_replay_guard = record { devices = []; max_seen_frames = pos max_memory_seen_frames }

-- SetMaxSeenFramesForTest; the nil guard is the caller's
unfoldable pub set_max_seen_frames_for_test : ℤ → MemoryReplayGuard → MemoryReplayGuard
set_max_seen_frames_for_test n g = record g { max_seen_frames = n }

abbrev pub new_state : ReplayState
new_state = record { max_sequence = 0; seen_frames = [] }

-- _, ok := seenFrames[frame]
unfoldable pub contains : Str → List Str → Bool
contains f [] = false
contains f (j ∷ js) = str_eq j f || contains f js

-- The entry of a device, which is put in place before any test of the sequence.
unfoldable pub ensure : Str → MemoryReplayGuard → ReplayState × MemoryReplayGuard
ensure d g = elim (lookup d g.devices) [
  | none ↦ (new_state, record g { devices = insert d new_state g.devices })
  | some state ↦ (state, g)
]

-- limit <= 0 means the default.
abbrev pub limit_of : MemoryReplayGuard → ℕ
limit_of g =
    if ltb_ℤ (pos 0) g.max_seen_frames then pos_part g.max_seen_frames else max_memory_seen_frames

-- The three refusals, in their order.
unfoldable pub judge : ℕ → ReplayState → Str → ℕ → Option Error
judge limit state f n =
    if contains f state.seen_frames
    then some replay
    else if leb n state.max_sequence
    then some replay
    else if leb limit (length state.seen_frames)
    then some replay_state_full
    else none

record_seen : Str → Str → ℕ → ReplayState → MemoryReplayGuard → MemoryReplayGuard
record_seen d f n state g = record g {
  devices = insert d (record { max_sequence = n; seen_frames = f ∷ state.seen_frames }) g.devices;
}

-- CheckAndRecord
unfoldable pub check_and_record :
    Str → Str → ℕ → MemoryReplayGuard → Option Error × MemoryReplayGuard
unfolding judge record_seen
check_and_record d f n g =
    if is_empty d || is_empty f
    then (some (malformed (text "device id and frame id are required")), g)
    else let (state, g') = ensure d g in
      elim (judge (limit_of g') state f n) [
        | some refusal ↦ (some refusal, g')
        | none ↦ (none, record_seen d f n state g')
      ]
