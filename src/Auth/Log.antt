-- ===== src/Auth/Log.antt =====
-- What a replay guard promises, over the log of the frames that it has accepted, newest first.
use Prim.Native.Nat.{max}
use golem_harness.Base.{
  ℕ, ◌+◌, ◌<◌, Str, ◌≡◌, ◌≢◌, Bool, true, false, ◌||◌, ◌&&◌, not, Option, none, some, List, [], ◌∷◌,
  All, arith, str_eq, str_eq_iff, ltb, if◌then◌else◌,
}
use golem_harness.Errors.{Error}

-- A frame as CheckAndRecord is given it.
pub record Frame : Type 0 where
  pub device : Str
  pub id : Str
  pub sequence : ℕ

abbrev pub Log : Type 0
Log = List Frame

-- The device has had this frame id accepted.
unfoldable pub frame_seen : Log → Str → Str → Bool
frame_seen [] d f = false
frame_seen (a ∷ log) d f = str_eq a.device d && str_eq a.id f || frame_seen log d f

-- The largest sequence accepted from the device, 0 if there is none.
unfoldable pub max_sequence : Log → Str → ℕ
max_sequence [] d = 0
max_sequence (a ∷ log) d =
    let rest = max_sequence log d in if str_eq a.device d then max a.sequence rest else rest

-- How many frames of the device have been accepted.
unfoldable pub accepted_count : Log → Str → ℕ
accepted_count [] d = 0
accepted_count (a ∷ log) d =
    let rest = accepted_count log d in if str_eq a.device d then rest + 1 else rest

-- A frame is fresh if its id is new for the device and its sequence above all accepted ones.
abbrev pub is_fresh : Log → Frame → Bool
is_fresh log r = not (frame_seen log r.device r.id) && ltb (max_sequence log r.device) r.sequence

-- The log after an answer to a request.
abbrev pub logged : Log → Frame → Option Error → Log
logged log r none = r ∷ log
logged log r (some refusal) = log

-- The newer frame does not repeat the older one.
abbrev pub Follows : Frame → Frame → Type 0
Follows new old = new.device ≡ old.device → (new.id ≢ old.id) × (old.sequence < new.sequence)

-- No device has had a frame id accepted twice, and its sequences have strictly increased.
abbrev pub NoReplay : Log → Type 0
NoReplay [] = Unit
NoReplay (a ∷ log) = All (Follows a) log × NoReplay log

pub fresh-Follows : (r : Frame) (log : Log) → is_fresh log r ≡ true → All (Follows r) log
unfolding frame_seen max_sequence
fresh-Follows r [] h = tt
fresh-Follows r (a ∷ log) h = (
  λ same. ground (arith, str_eq_iff a.device r.device, str_eq_iff a.id r.id),
  fresh-Follows r log (ground arith),
)
