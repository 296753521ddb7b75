-- ===== src/Storage/Paths.antt =====
-- server/internal/storage/storage.go: the files and options of a sink, the validation of a frame and
-- the names of archives.
use golem_harness.Base.{
  ℕ, Str, text, is_empty, str_eq, Bool, true, false, ◌||◌, ◌&&◌, not, Option, none, some, [], ◌∷◌,
  ◌++◌, ◌==◌, if◌then◌else◌,
}
use golem_harness.Base.Int.{ℤ, pos}
use golem_harness.Clock.{Time, is_zero}
use golem_harness.Decimal.{decimal}
use golem_harness.Trajectory.{Decision, accept, drop, quarantine, other, SanitizedFrame}

-- os.Stat: not there, an error, or the size and the time of the last change
pub data Stat : Type 0 where
  missing unreadable : Stat
  found : ℕ → Time → Stat

-- The operations of os and of *os.File. A Boolean answer says whether there was an error.
pub record Files : Type 1 where
  pub State : Type 0
  pub Handle : Type 0
  pub stat : Str → State → Stat
  pub rename : Str → Str → State → Bool × State
  pub open_append : Str → State → Option Handle × State
  pub file_size : Handle → State → Option ℕ
  -- the bytes written, and whether there was an error
  pub write : Handle → Str → State → (ℕ × Bool) × State
  pub sync : Handle → State → Bool × State
  pub close : Handle → State → Bool × State

-- filepath.Dir, Base, Ext and Join, and Format with the layouts 20060102 and 20060102T150405Z
pub record Names : Type 0 where
  pub dir : Str → Str
  pub base : Str → Str
  pub ext : Str → Str
  pub join : Str → Str → Str
  pub day_of : Time → Str
  pub stamp_of : Time → Str

-- type JSONLOptions
pub record JsonlOptions : Type 0 where
  pub max_bytes : ℤ
  pub rotate_daily : Bool
  pub sync : Bool

-- DefaultJSONLOptions
abbrev pub default_jsonl_options : JsonlOptions
default_jsonl_options = record { max_bytes = pos 0; rotate_daily = false; sync = true }

-- ErrUnsafeFrame, the error of a context, and any other error by its text, without its cause
pub data StorageError : Type 0 where
  unsafe_frame canceled : StorageError
  failed : Str → StorageError

abbrev pub is_accept : Decision → Bool
is_accept accept = true
is_accept drop = false
is_accept quarantine = false
is_accept (other s) = false

-- validateSanitizedFrame
unfoldable pub validate_sanitized_frame : SanitizedFrame → Option StorageError
validate_sanitized_frame frame =
    if is_empty frame.sanitizer.sanitizer_version || not (is_accept frame.sanitizer.decision)
    then some unsafe_frame
    else if is_zero frame.sanitized_at
    then some unsafe_frame
    else none

-- strings.TrimSuffix
unfoldable pub trim_suffix : Str → Str → Str
trim_suffix [] suffix = []
trim_suffix (c ∷ s) suffix =
    let rest = trim_suffix s suffix in if str_eq (c ∷ s) suffix then [] else c ∷ rest

module _ (N : Names) where
  -- archiveStamp
  unfoldable pub archive_stamp : Str → Time → Bool → Str
  archive_stamp data_day now day_boundary =
      if day_boundary && not (is_empty data_day) then data_day else N.stamp_of now

  -- rotatedPath
  unfoldable pub rotated_path : Str → Str → Str
  rotated_path path stamp =
      let base = N.base path in
      let ext = N.ext base in
      let name = trim_suffix base ext in
      N.join (N.dir path)
        (name ++ (text "-" ++ (stamp ++ (if is_empty ext then text ".jsonl" else ext))))

-- candidate number i
abbrev pub candidate : Str → ℕ → Str
candidate dest i = if i == 0 then dest else dest ++ (text "." ++ decimal i)
