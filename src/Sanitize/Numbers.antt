-- ===== src/Sanitize/Numbers.antt =====
-- server/internal/sanitize/sanitize.go: which texts ssnPattern and longNumericPattern match, and that
-- the redactor lets none of them through.
use mathlib.Core.List.{append_assoc}
use golem_harness.Base.{
  ℕ, suc, ◌≤◌, Str, text, ◌≡◌, refl, sym, ap, ◌∙◌, ◌↔◌, ◌⊎◌, inl, inr, Bool, true, Option, some, [],
  ◌∷◌, ◌++◌, arith, length, length-append, ◌≢◌,
}
use golem_harness.Platform.{Platform}
use golem_harness.Trajectory.{redacted}
use golem_harness.Regex.{seq, in_class, word_class, word_behind, word_before}
use golem_harness.Regex.Build.{digit, digit_class, times, literal}
use golem_harness.Regex.Words.{
  OneOf, Then, AllIn, Exactly, AtLeast, Spells, byte-Spells, seq-Spells, times-Spells,
  at_least-Spells, Spells-map, StandsAlone, IsSolid, last_byte, last_byte-append,
  match_string-StandsAlone,
}
use golem_harness.Sanitize.Redactor.{
  Pattern, ssn, long_numeric, Ner, Redactor, has_regex_pii, sanitize_text, add_rule, add_field,
}
use golem_harness.Sanitize.Nodes.{is_pii, has_regex_pii-eq-is_pii}
use golem_harness.Sanitize.Patterns.{match_pattern, ssn_pattern, long_numeric_pattern}

-- Three digits, two and four, with a dash between.
pub record IsSsn (w : Str) : Type 0 where
  pub area : Str
  pub group : Str
  pub serial : Str
  pub area_digits : Exactly 3 digit_class area
  pub group_digits : Exactly 2 digit_class group
  pub serial_digits : Exactly 4 digit_class serial
  pub dashed : w ≡ area ++ (45 ∷ (group ++ (45 ∷ serial)))

-- Nine digits or more.
abbrev pub IsLongNumber : Str → Type 0
IsLongNumber = AtLeast 9 digit_class

digit_is_word : (c : ℕ) → in_class digit_class c ≡ true → in_class word_class c ≡ true
unfolding in_class
digit_is_word c h = ground arith

digits_final :
    (w : Str) (c : ℕ)
    → in_class word_class c ≡ true
    → AllIn digit_class w
    → word_before (last_byte (some c) w) ≡ true
unfolding word_before
digits_final [] c e h = e
digits_final (d ∷ w) c e h = digits_final w d (digit_is_word d h.0) h.1

IsLongNumber-IsSolid : IsSolid IsLongNumber
unfolding word_behind
IsLongNumber-IsSolid = record { first = first_lem; final = final_lem }
  where
    first_lem : (w t : Str) → IsLongNumber w → word_behind (w ++ t) ≡ true
    first_lem [] t h = absurd (omega arith)
    first_lem (c ∷ w) t h = digit_is_word c h.0.0

    final_lem : (w : Str) (p : Option ℕ) → IsLongNumber w → word_before (last_byte p w) ≡ true
    final_lem [] p h = absurd (omega arith)
    final_lem (c ∷ w) p h = digits_final w c (digit_is_word c h.0.0) h.0.1

-- The pattern of long numbers matches exactly the texts in which nine digits or more stand with no
-- word byte next to them.
pub long_numeric_exact :
    (s : Str) → (match_pattern long_numeric s ≡ true) ↔ StandsAlone IsLongNumber s
unfolding match_pattern long_numeric_pattern
long_numeric_exact s =
    match_string-StandsAlone (at_least-Spells 9 digit_class) IsLongNumber-IsSolid s

abbrev Dash : Str → Type 0
Dash = OneOf ((45, 45) ∷ [])

abbrev SsnParts : Str → Type 0
SsnParts =
    Then (Exactly 3 digit_class)
      (Then Dash (Then (Exactly 2 digit_class) (Then Dash (Exactly 4 digit_class))))

dash_of : (c : ℕ) → in_class ((45, 45) ∷ []) c ≡ true → c ≡ 45
unfolding in_class
dash_of c h = ground arith

parts-IsSsn : (w : Str) → SsnParts w → IsSsn w
parts-IsSsn w
      (a, r1, ha, (d, r2, (c, hc, ec), (b, r3, hb, (d', e, (c', hc', ec'), he, s4), s3), s2), s1) =
    record {
      area = a;
      group = b;
      serial = e;
      area_digits = ha;
      group_digits = hb;
      serial_digits = he;
      dashed = rw (s1, s2, s3, s4, ec, ec', dash_of c hc, dash_of c' hc');
    }

IsSsn-parts : (w : Str) → IsSsn w → SsnParts w
unfolding in_class
IsSsn-parts w x = (
  x.area,
  45 ∷ (x.group ++ (45 ∷ x.serial)),
  x.area_digits,
  (
    45 ∷ [],
    x.group ++ (45 ∷ x.serial),
    (45, refl, refl),
    (
      x.group,
      45 ∷ x.serial,
      x.group_digits,
      (45 ∷ [], x.serial, (45, refl, refl), x.serial_digits, refl),
      refl,
    ),
    refl,
  ),
  x.dashed,
)

IsSsn-Spells :
    Spells
      (seq
        (times 3 digit)
        (seq (literal 45) (seq (times 2 digit) (seq (literal 45) (times 4 digit)))))
      IsSsn
IsSsn-Spells =
    Spells-map
      (seq-Spells (times-Spells 3 digit_class) (
        seq-Spells (byte-Spells ((45, 45) ∷ [])) (
          seq-Spells (times-Spells 2 digit_class)
            (seq-Spells (byte-Spells ((45, 45) ∷ [])) (times-Spells 4 digit_class)))))
      parts-IsSsn IsSsn-parts

digits_behind : (n : ℕ) (w t : Str) → Exactly (suc n) digit_class w → word_behind (w ++ t) ≡ true
unfolding word_behind
digits_behind n [] t h = absurd (omega arith)
digits_behind n (c ∷ w) t h = digit_is_word c h.0.0

digits_before :
    (n : ℕ) (w : Str) (p : Option ℕ)
    → Exactly (suc n) digit_class w
    → word_before (last_byte p w) ≡ true
digits_before n [] p h = absurd (omega arith)
digits_before n (c ∷ w) p h = digits_final w c (digit_is_word c h.0.0) h.0.1

IsSsn-IsSolid : IsSolid IsSsn
IsSsn-IsSolid = record {
  first = λ w t x. rw (x.dashed, append_assoc) (digits_behind 2 x.area _ x.area_digits);
  final = λ w p x.
      rw (x.dashed, last_byte-append, last_byte-append)
        (digits_before 3 x.serial _ x.serial_digits);
}

-- The pattern of social security numbers matches exactly the texts in which three digits, a dash,
-- two digits, a dash and four digits stand with no word byte next to them.
pub ssn_exact : (s : Str) → (match_pattern ssn s ≡ true) ↔ StandsAlone IsSsn s
unfolding match_pattern ssn_pattern
ssn_exact s = match_string-StandsAlone IsSsn-Spells IsSsn-IsSolid s

ssn-is_pii :
    (matches : Pattern → Str → Bool) (raw : Str)
    → matches ssn raw ≡ true
    → is_pii matches raw ≡ true
ssn-is_pii matches raw h = ground arith

long_numeric-is_pii :
    (matches : Pattern → Str → Bool) (raw : Str)
    → matches long_numeric raw ≡ true
    → is_pii matches raw ≡ true
long_numeric-is_pii matches raw h = ground arith

-- A text that some pattern matches is blank and redacted.
sanitize_text-matched :
    (matches : Pattern → Str → Bool) (P : Platform) (find_entities : Ner) (raw field : Str)
    (r : Redactor)
    → raw ≢ []
    → is_pii matches raw ≡ true
    → (r' : Redactor) × (sanitize_text matches P find_entities raw field r
        ≡ some (([], redacted), r'))
unfolding sanitize_text
sanitize_text-matched matches P find_entities [] field r present h = absurd (present refl)
sanitize_text-matched matches P find_entities (c ∷ s) field r present h =
    let same =
      has_regex_pii-eq-is_pii matches (c ∷ s) field (add_rule (text "structural_attrition") r) in
    (
      add_field field
          (has_regex_pii matches (c ∷ s) field (add_rule (text "structural_attrition") r)).1,
      rw (same, h),
    )

standing-ne-nil :
    (Q : Str → Type 0) (raw : Str) → ((w : Str) → Q w → 1 ≤ length w) → StandsAlone Q raw → raw ≢ []
standing-ne-nil Q raw long a e = omega (
  arith,
  ap length (sym e ∙ a.split),
  length-append {0} a.before (a.word ++ a.behind),
  length-append {0} a.word a.behind,
  long a.word a.good,
)

-- A text in which a social security number or a number of nine digits or more stands alone is
-- blank and redacted, whatever the NER finds.
pub sanitize_text-redacted :
    (P : Platform) (find_entities : Ner) (raw field : Str) (r : Redactor)
    → StandsAlone IsSsn raw ⊎ StandsAlone IsLongNumber raw
    → (r' : Redactor) × (sanitize_text match_pattern P find_entities raw field r
        ≡ some (([], redacted), r'))
sanitize_text-redacted P find_entities raw field r (inl a) =
    let hit = (ssn_exact raw).1 a in
    sanitize_text-matched match_pattern P find_entities raw field r
      (standing-ne-nil IsSsn raw
        (λ w x. omega (
          arith,
          ap length x.dashed,
          length-append {0} x.area (45 ∷ (x.group ++ (45 ∷ x.serial))),
          x.area_digits.1,
        ))
        a)
      (ssn-is_pii match_pattern raw hit)
sanitize_text-redacted P find_entities raw field r (inr a) =
    let hit = (long_numeric_exact raw).1 a in
    sanitize_text-matched match_pattern P find_entities raw field r
      (standing-ne-nil IsLongNumber raw (λ w x. omega (arith, x.1)) a)
      (long_numeric-is_pii match_pattern raw hit)
