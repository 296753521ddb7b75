-- ===== src/Tests/PatternTests.antt =====
-- The seven regular expressions on sample texts.
use golem_harness.Base.{text, ◌≡◌, refl, true, false}
use golem_harness.Regex.{match_string, differ, word_before, word_behind, in_class}
use golem_harness.Sanitize.Redactor.{email, phone, ssn, payment_card, address, token, long_numeric}
use golem_harness.Sanitize.Patterns.{
  match_pattern, any_of, email_pattern, phone_pattern, ssn_pattern, card_pattern, address_pattern,
  token_pattern, long_numeric_pattern,
}

matched :
    (match_pattern ssn (text "id 123-45-6789.") ≡ true)
    × (match_pattern email (text "Mail Ann.B+x@mail.example.org now") ≡ true)
    × (match_pattern phone (text "call 555-123-4567") ≡ true)
    × (match_pattern phone (text "+1 (555) 123.4567") ≡ true)
    × (match_pattern payment_card (text "4111 1111 1111 1111") ≡ true)
    × (match_pattern address (text "at 12 Old Mill Road, 3rd floor") ≡ true)
    × (match_pattern token (text "API_KEY = abcd-1234.x") ≡ true)
    × (match_pattern long_numeric (text "n 123456789") ≡ true)
unfolding match_pattern match_string text differ word_before word_behind in_class any_of
    email_pattern phone_pattern ssn_pattern card_pattern address_pattern token_pattern
    long_numeric_pattern
matched = (refl, refl, refl, refl, refl, refl, refl, refl)

-- Among them a bearer token in a header: the pattern wants `:` or `=` behind the word.
not_matched :
    (match_pattern ssn (text "9123-45-6789") ≡ false)
    × (match_pattern email (text "ann@host") ≡ false)
    × (match_pattern payment_card (text "4111 1111 1111") ≡ false)
    × (match_pattern address (text "Open Wi-Fi settings") ≡ false)
    × (match_pattern token (text "Authorization: Bearer abcd1234efgh") ≡ false)
    × (match_pattern long_numeric (text "x123456789") ≡ false)
unfolding match_pattern match_string text differ word_before word_behind in_class any_of
    email_pattern phone_pattern ssn_pattern card_pattern address_pattern token_pattern
    long_numeric_pattern
not_matched = (refl, refl, refl, refl, refl, refl)
