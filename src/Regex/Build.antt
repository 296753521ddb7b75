-- ===== src/Regex/Build.antt =====
-- What the syntax of regular expressions is short for.
use golem_harness.Base.{ℕ, zero, suc, ◌-◌, Str, [], ◌∷◌, leb, ◌&&◌, if◌then◌else◌, ◌==◌}
use golem_harness.Regex.{Class, Regex, empty, byte, seq, alt, star, boundary}

-- One byte, and a text
abbrev pub literal : ℕ → Regex
literal c = byte ((c, c) ∷ [])

abbrev pub literals : Str → Regex
literals [] = empty
literals (c ∷ s) = seq (literal c) (literals s)

-- r?
abbrev pub optional : Regex → Regex
optional r = alt r empty

-- r{n}, and up to n of r
abbrev pub times : ℕ → Regex → Regex
times zero r = empty
times (suc n) r = seq r (times n r)

abbrev pub at_most : ℕ → Regex → Regex
at_most zero r = empty
at_most (suc n) r = optional (seq r (at_most n r))

-- r+
abbrev pub plus : Regex → Regex
plus r = seq r (star r)

-- r{n,}
abbrev pub at_least : ℕ → Regex → Regex
at_least n r = seq (times n r) (star r)

-- \b r \b
abbrev pub whole_word : Regex → Regex
whole_word r = seq boundary (seq r boundary)

-- \d, \s
abbrev pub digit_class : Class
digit_class = (48, 57) ∷ []

abbrev pub digit : Regex
digit = byte digit_class

abbrev pub space : Regex
space = byte ((9, 10) ∷ (12, 13) ∷ (32, 32) ∷ [])

-- Under (?i) the letters s and k also stand for U+017F and U+212A, whose lower cases they are.
abbrev pub long_s : Regex
long_s = literals (197 ∷ 191 ∷ [])

abbrev pub kelvin : Regex
kelvin = literals (226 ∷ 132 ∷ 170 ∷ [])

-- A class under (?i) that has all letters A-Z
abbrev pub fold_class : Class → Regex
fold_class k = alt (byte ((65, 90) ∷ (97, 122) ∷ k)) (alt long_s kelvin)

-- A text of small letters, and of bytes that are no letters, under (?i)
abbrev pub fold_byte : ℕ → Regex
fold_byte c =
    let both_cases = byte ((c, c) ∷ (c - 32, c - 32) ∷ []) in
    if c == 115
    then alt both_cases long_s
    else if c == 107
    then alt both_cases kelvin
    else if leb 97 c && leb c 122
    then both_cases
    else literal c

abbrev pub fold_text : Str → Regex
fold_text [] = empty
fold_text (c ∷ s) = seq (fold_byte c) (fold_text s)
