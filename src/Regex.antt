-- ===== src/Regex.antt =====
-- Go's package regexp, as far as the patterns of server/internal/sanitize/sanitize.go need it. A text
-- is its UTF-8 bytes. `\b` looks at ASCII only, as it does there, so it needs the byte on each side.
pub mod Exact
pub mod Build
pub mod Words
use golem_harness.Base.{
  ℕ, zero, suc, ◌≡◌, Str, Bool, true, false, ◌||◌, ◌&&◌, not, Option, none, some, List, [], ◌∷◌,
  length, leb, ltb,
}

-- A class of bytes, by its ranges.
abbrev pub Class : Type 0
Class = List (ℕ × ℕ)

unfoldable pub in_class : Class → ℕ → Bool
in_class [] c = false
in_class ((lo, hi) ∷ ranges) c = leb lo c && leb c hi || in_class ranges c

pub data Regex : Type 0 where
  empty : Regex
  byte : Class → Regex
  seq : Regex → Regex → Regex
  alt : Regex → Regex → Regex
  star : Regex → Regex
  boundary : Regex

-- [0-9A-Za-z_]
abbrev pub word_class : Class
word_class = (48, 57) ∷ (65, 90) ∷ (95, 95) ∷ (97, 122) ∷ []

-- Whether the byte before a place, or the one behind it, is a word byte.
unfoldable pub word_before : Option ℕ → Bool
word_before none = false
word_before (some c) = in_class word_class c

unfoldable pub word_behind : Str → Bool
word_behind [] = false
word_behind (c ∷ s) = in_class word_class c

unfoldable pub differ : Bool → Bool → Bool
differ true b = not b
differ false b = b

-- The expression leads from a place to a place: each is the byte before it and the text behind it.
pub data Leads : Regex → Option ℕ → Str → Option ℕ → Str → Type 0 where
  skip : {p : Option ℕ} {s : Str} → Leads empty p s p s
  take_byte :
      {k : Class} {p : Option ℕ} {c : ℕ} {s : Str}
      → in_class k c ≡ true
      → Leads (byte k) p (c ∷ s) (some c) s
  both :
      {r r' : Regex} {p q u : Option ℕ} {s t v : Str}
      → Leads r p s q t
      → Leads r' q t u v
      → Leads (seq r r') p s u v
  left : {r r' : Regex} {p q : Option ℕ} {s t : Str} → Leads r p s q t → Leads (alt r r') p s q t
  right : {r r' : Regex} {p q : Option ℕ} {s t : Str} → Leads r' p s q t → Leads (alt r r') p s q t
  stop : {r : Regex} {p : Option ℕ} {s : Str} → Leads (star r) p s p s
  again :
      {r : Regex} {p q u : Option ℕ} {s t v : Str}
      → Leads r p s q t
      → Leads (star r) q t u v
      → Leads (star r) p s u v
  edge :
      {p : Option ℕ} {s : Str}
      → differ (word_before p) (word_behind s) ≡ true
      → Leads boundary p s p s

-- The expression matches somewhere from the place on.
pub data Found (r : Regex) : Option ℕ → Str → Type 0 where
  here : {p q : Option ℕ} {s t : Str} → Leads r p s q t → Found r p s
  later : {p : Option ℕ} {c : ℕ} {s : Str} → Found r (some c) s → Found r p (c ∷ s)

-- What is to come behind a match.
abbrev pub Rest : Type 0
Rest = Option ℕ → Str → Bool

-- One more round of a star, which must take a byte, or none; the fuel is the length of the text.
star_loop : (Rest → Rest) → ℕ → Rest → Rest
star_loop once zero k p s = k p s
star_loop once (suc fuel) k p s = elim (k p s) [
  | true ↦ true
  | false ↦ once (λ q t. ltb (length t) (length s) && star_loop once fuel k q t) p s
]

-- Whether the expression leads from the place to one where `k` holds.
run : Regex → Rest → Rest
run empty k p s = k p s
run (byte c) k p [] = false
run (byte c) k p (x ∷ s) = in_class c x && k (some x) s
run (seq r r') k p s = run r (run r' k) p s
run (alt r r') k p s = run r k p s || run r' k p s
run (star r) k p s = star_loop (run r) (length s) k p s
run boundary k p s = differ (word_before p) (word_behind s) && k p s

search : Regex → Rest
search r p [] = run r (λ q t. true) p []
search r p (c ∷ s) = run r (λ q t. true) p (c ∷ s) || search r (some c) s

-- re.MatchString
unfoldable pub match_string : Regex → Str → Bool
unfolding search run star_loop
match_string r s = search r none s
