-- ===== src/Strings.antt =====
-- The functions of Go's `strings` and `sort` packages that the program calls.
pub mod Sorting
use golem_harness.Base.{
  ℕ, zero, suc, ◌-◌, Str, Bool, true, false, ◌||◌, ◌&&◌, List, [], ◌∷◌, ◌++◌, is_empty, str_eq, leb,
  ◌==◌, if◌then◌else◌,
}
use mathlib.Core.List.{reverse}

-- unicode.IsSpace of a code point of one byte, of two bytes `c d`, and of three bytes `c d e`, in
-- UTF-8: tab to carriage return, space; U+0085, U+00A0; U+1680, U+2000 to U+200A, U+2028, U+2029,
-- U+202F, U+205F, U+3000.
abbrev is_space_one : ℕ → Bool
is_space_one c = leb 9 c && leb c 13 || c == 32

abbrev is_space_two : ℕ → ℕ → Bool
is_space_two c d = c == 0xc2 && (d == 0x85 || d == 0xa0)

abbrev is_space_three : ℕ → ℕ → ℕ → Bool
is_space_three c d e =
    c == 0xe1 && d == 0x9a && e == 0x80
    || c == 0xe2 && d == 0x80 && (leb 0x80 e && leb e 0x8a || e == 0xa8 || e == 0xa9 || e == 0xaf)
    || c == 0xe2 && d == 0x81 && e == 0x9f
    || c == 0xe3 && d == 0x80 && e == 0x80

-- How many bytes the white space at the head of a text takes, 0 if there is none.
space_len : Str → ℕ
space_len [] = 0
space_len (c ∷ []) = if is_space_one c then 1 else 0
space_len (c ∷ d ∷ []) = if is_space_one c then 1 else if is_space_two c d then 2 else 0
space_len (c ∷ d ∷ e ∷ s) =
    if is_space_one c
    then 1
    else if is_space_two c d
    then 2
    else if is_space_three c d e
    then 3
    else 0

-- The same at the end of a text, which is given backwards.
last_space_len : Str → ℕ
last_space_len [] = 0
last_space_len (c ∷ []) = if is_space_one c then 1 else 0
last_space_len (c ∷ d ∷ []) = if is_space_one c then 1 else if is_space_two d c then 2 else 0
last_space_len (c ∷ d ∷ e ∷ s) =
    if is_space_one c
    then 1
    else if is_space_two d c
    then 2
    else if is_space_three e d c
    then 3
    else 0

-- Drops `skip` bytes, and then white space as long as `len` finds some.
strip : (Str → ℕ) → ℕ → Str → Str
strip len skip [] = []
strip len (suc skip) (c ∷ s) = strip len skip s
strip len zero (c ∷ s) = elim (len (c ∷ s)) [ zero ↦ c ∷ s | suc more ↦ strip len more s ]

-- strings.TrimSpace
unfoldable pub trim_space : Str → Str
unfolding space_len last_space_len strip
trim_space s = reverse (strip last_space_len 0 (reverse (strip space_len 0 s)))

-- A set of strings, as the list of its members: map[string]struct{}
unfoldable pub contains : Str → List Str → Bool
contains s [] = false
contains s (t ∷ ts) = str_eq t s || contains s ts
