-- ===== src/Clock.antt =====
-- Go's `time.Time` and `time.Duration`: an instant is a number of nanoseconds since the zero time
-- (January 1, year 1, UTC), and a duration is an int64 number of nanoseconds. A time's location
-- plays no part: the program compares instants and prints them in UTC.
use golem_harness.Base.{ℕ, ◌-◌, ◌^◌, Bool, ◌==◌, ◌&&◌, if◌then◌else◌}
use golem_harness.Base.Int.{ℤ, pos, negsuc, pos_part, neg_part, ◌-ℤ◌, ltb_ℤ}

abbrev pub Time : Type 0
Time = ℤ

abbrev pub Duration : Type 0
Duration = ℤ

abbrev pub second : ℕ
second = 1_000_000_000

abbrev pub max_duration : Duration
max_duration = pos (2 ^ 63 - 1)

abbrev pub min_duration : Duration
min_duration = negsuc (2 ^ 63 - 1)

-- t.IsZero()
abbrev pub is_zero : Time → Bool
is_zero t = pos_part t == 0 && neg_part t == 0

-- t.After(u)
abbrev pub after : Time → Time → Bool
after t u = ltb_ℤ u t

-- t.Sub(u), which saturates at the ends of int64
unfoldable pub sub : Time → Time → Duration
sub t u =
    if ltb_ℤ max_duration (t -ℤ u)
    then max_duration
    else if ltb_ℤ (t -ℤ u) min_duration
    then min_duration
    else t -ℤ u
