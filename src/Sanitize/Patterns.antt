-- ===== src/Sanitize/Patterns.antt =====
-- server/internal/sanitize/sanitize.go: the seven regular expressions.
use golem_harness.Base.{Str, text, Bool, List, [], ◌∷◌}
use golem_harness.Regex.{Class, Regex, byte, seq, alt, star, match_string}
use golem_harness.Regex.Build.{
  literal, optional, times, at_most, plus, at_least, digit, space, whole_word, fold_class,
  fold_text,
}
use golem_harness.Sanitize.Redactor.{
  Pattern, email, phone, ssn, payment_card, address, token, long_numeric,
}

infixr 60 ◌⨾◌
abbrev pub ◌⨾◌ : Regex → Regex → Regex
r ⨾ r' = seq r r'

-- The alternatives of a group, each a small text.
unfoldable pub any_of : List Str → Regex
any_of [] = byte []
any_of (word ∷ []) = fold_text word
any_of (word ∷ words) = alt (fold_text word) (any_of words)

-- [.\-], [-.\s], _ or -, : or =
abbrev dot_dash : Class
dot_dash = (45, 46) ∷ []

abbrev separator : Regex
separator = byte ((45, 46) ∷ (9, 10) ∷ (12, 13) ∷ (32, 32) ∷ [])

abbrev underscore_dash : Regex
underscore_dash = byte ((95, 95) ∷ (45, 45) ∷ [])

-- emailPattern: (?i)\b[A-Z0-9._%+\-]+@[A-Z0-9.\-]+\.[A-Z]{2,}\b
unfoldable pub email_pattern : Regex
email_pattern = whole_word (
    plus (fold_class ((48, 57) ∷ (46, 46) ∷ (95, 95) ∷ (37, 37) ∷ (43, 43) ∷ (45, 45) ∷ []))
    ⨾ literal 64
    ⨾ plus (fold_class ((48, 57) ∷ dot_dash))
    ⨾ literal 46
    ⨾ at_least 2 (fold_class []))

-- phonePattern: \b(?:\+?1[-.\s]?)?(?:\(?\d{3}\)?[-.\s]?)\d{3}[-.\s]?\d{4}\b
unfoldable pub phone_pattern : Regex
phone_pattern = whole_word (
    optional (optional (literal 43) ⨾ literal 49 ⨾ optional separator)
    ⨾ (optional (literal 40) ⨾ times 3 digit ⨾ optional (literal 41) ⨾ optional separator)
    ⨾ times 3 digit
    ⨾ optional separator
    ⨾ times 4 digit)

-- ssnPattern: \b\d{3}-\d{2}-\d{4}\b
unfoldable pub ssn_pattern : Regex
ssn_pattern = whole_word (times 3 digit ⨾ literal 45 ⨾ times 2 digit ⨾ literal 45 ⨾ times 4 digit)

-- cardPattern: \b(?:\d[ -]*?){13,19}\b
unfoldable pub card_pattern : Regex
card_pattern =
    let step = digit ⨾ star (byte ((32, 32) ∷ (45, 45) ∷ [])) in
    whole_word (times 13 step ⨾ at_most 6 step)

-- addressPattern: (?i)\b\d{1,6}\s+[A-Z0-9][A-Z0-9.\-]*(?:\s+[A-Z0-9][A-Z0-9.\-]*){0,4}\s+
--   (?:st|street|ave|avenue|rd|road|blvd|boulevard|dr|drive|ln|lane|way|ct|court)\b
unfoldable pub address_pattern : Regex
unfolding text any_of
address_pattern =
    let word = fold_class ((48, 57) ∷ []) ⨾ star (fold_class ((48, 57) ∷ dot_dash)) in
    whole_word (
      (digit ⨾ at_most 5 digit)
      ⨾ plus space
      ⨾ word
      ⨾ at_most 4 (plus space ⨾ word)
      ⨾ plus space
      ⨾ any_of (
          text "st"
          ∷ text "street"
          ∷ text "ave"
          ∷ text "avenue"
          ∷ text "rd"
          ∷ text "road"
          ∷ text "blvd"
          ∷ text "boulevard"
          ∷ text "dr"
          ∷ text "drive"
          ∷ text "ln"
          ∷ text "lane"
          ∷ text "way"
          ∷ text "ct"
          ∷ text "court"
          ∷ []))

-- tokenPattern: (?i)\b(?:bearer|api[_-]?key|access[_-]?token|secret|token)\s*[:=]\s*
--   [A-Z0-9._\-]{8,}\b
unfoldable pub token_pattern : Regex
unfolding text
token_pattern = whole_word (
    alt (fold_text (text "bearer")) (
      alt (fold_text (text "api") ⨾ optional underscore_dash ⨾ fold_text (text "key")) (
        alt (fold_text (text "access") ⨾ optional underscore_dash ⨾ fold_text (text "token"))
          (alt (fold_text (text "secret")) (fold_text (text "token")))))
    ⨾ star space
    ⨾ byte ((58, 58) ∷ (61, 61) ∷ [])
    ⨾ star space
    ⨾ at_least 8 (fold_class ((48, 57) ∷ (46, 46) ∷ (95, 95) ∷ (45, 45) ∷ [])))

-- longNumericPattern: \b\d{9,}\b
unfoldable pub long_numeric_pattern : Regex
long_numeric_pattern = whole_word (at_least 9 digit)

abbrev pub pattern_regex : Pattern → Regex
pattern_regex email = email_pattern
pattern_regex phone = phone_pattern
pattern_regex ssn = ssn_pattern
pattern_regex payment_card = card_pattern
pattern_regex address = address_pattern
pattern_regex token = token_pattern
pattern_regex long_numeric = long_numeric_pattern

-- pattern.re.MatchString(raw)
unfoldable pub match_pattern : Pattern → Str → Bool
match_pattern p raw = match_string (pattern_regex p) raw
