-- ===== src/Regex/Words.antt =====
-- Expressions that read a word, whatever stands round it, and words that stand alone.
use mathlib.Core.Path.{subst}
use mathlib.Core.List.{append_assoc}
use golem_harness.Base.{
  ℕ, zero, suc, ◌≤◌, Str, ◌≡◌, refl, sym, ◌∙◌, ap, ◌↔◌, Bool, true, false, Option, none, some, [],
  ◌∷◌, ◌++◌, arith, length, length-append, All, All-append,
}
use golem_harness.Regex.{
  Class, Regex, byte, seq, star, boundary, Leads, take_byte, both, stop, again, edge, skip, empty,
  Found, here, later, in_class, word_before, word_behind, differ, match_string,
}
use golem_harness.Regex.Exact.{match_string_exact}
use golem_harness.Regex.Build.{times, at_least}

-- The last byte of a text that comes after `p`.
abbrev pub last_byte : Option ℕ → Str → Option ℕ
last_byte p [] = p
last_byte p (c ∷ s) = last_byte (some c) s

pub last_byte-append :
    (p : Option ℕ) (v w : Str) → last_byte p (v ++ w) ≡ last_byte (last_byte p v) w
last_byte-append p [] w = refl
last_byte-append p (c ∷ v) w = last_byte-append (some c) v w

-- A word with the property is what lies between the two places.
pub record Reads (Q : Str → Type 0) (p : Option ℕ) (s : Str) (q : Option ℕ) (t : Str) : Type 0 where
  pub word : Str
  pub good : Q word
  pub split : s ≡ word ++ t
  pub last : q ≡ last_byte p word

-- The expression reads exactly the words with the property.
pub record Spells (r : Regex) (Q : Str → Type 0) : Type 0 where
  pub reads : (p q : Option ℕ) (s t : Str) → Leads r p s q t → Reads Q p s q t
  pub leads : (p : Option ℕ) (w t : Str) → Q w → Leads r p (w ++ t) (last_byte p w) t

-- One byte of a class; one word after another; a word with some number of bytes of a class.
abbrev pub OneOf : Class → Str → Type 0
OneOf k w = (c : ℕ) × (in_class k c ≡ true) × (w ≡ c ∷ [])

abbrev pub Then : (Str → Type 0) → (Str → Type 0) → Str → Type 0
Then Q R w = (u : Str) × (v : Str) × Q u × R v × (w ≡ u ++ v)

abbrev pub AllIn : Class → Str → Type 0
AllIn k w = All (λ c. in_class k c ≡ true) w

abbrev pub Exactly : ℕ → Class → Str → Type 0
Exactly n k w = AllIn k w × (length w ≡ n)

abbrev pub AtLeast : ℕ → Class → Str → Type 0
AtLeast n k w = AllIn k w × (n ≤ length w)

byte-Reads :
    (k : Class) (p q : Option ℕ) (s t : Str) → Leads (byte k) p s q t → Reads (OneOf k) p s q t
byte-Reads k p q (c ∷ s) t (take_byte h) = record {
  word = c ∷ [];
  good = (c, h, refl);
  split = refl;
  last = refl;
}
byte-Reads k p q [] t d = elim d [ ]

pub byte-Spells : (k : Class) → Spells (byte k) (OneOf k)
byte-Spells k = record { reads = byte-Reads k; leads = λ p w t (c, h, e). rw e (take_byte h) }

seq-Reads :
    (r r' : Regex) (Q R : Str → Type 0)
    → Spells r Q
    → Spells r' R
    → (p q : Option ℕ) (s t : Str) → Leads (seq r r') p s q t
    → Reads (Then Q R) p s q t
seq-Reads r r' Q R hr hr' p q s t (both {q = m} {t = v} d d') =
    let a = hr.reads p m s v d in
    let b = hr'.reads m q v t d' in
    record {
      word = a.word ++ b.word;
      good = (a.word, b.word, a.good, b.good, refl);
      split = a.split ∙ (ap (λ x. a.word ++ x) b.split ∙ sym (append_assoc a.word b.word t));
      last =
          b.last ∙ (ap (λ x. last_byte x b.word) a.last ∙ sym (last_byte-append p a.word b.word));
    }

pub seq-Spells :
    {r r' : Regex} {Q R : Str → Type 0} → Spells r Q → Spells r' R → Spells (seq r r') (Then Q R)
seq-Spells {r} {r'} {Q} {R} hr hr' = record {
  reads = seq-Reads r r' Q R hr hr';
  leads = λ p w t (u, v, x, y, e).
      rw (e, append_assoc, last_byte-append)
        (both (hr.leads p u (v ++ t) x) (hr'.leads (last_byte p u) v t y));
}

-- The same words, said in another way.
pub Spells-map :
    {r : Regex} {Q R : Str → Type 0}
    → Spells r Q
    → ((w : Str) → Q w → R w)
    → ((w : Str) → R w → Q w)
    → Spells r R
Spells-map h f g = record {
  reads = λ p q s t d.
      let x = h.reads p q s t d in
      record { word = x.word; good = f x.word x.good; split = x.split; last = x.last };
  leads = λ p w t y. h.leads p w t (g w y);
}

empty-Reads :
    (k : Class) (p q : Option ℕ) (s t : Str) → Leads empty p s q t → Reads (Exactly 0 k) p s q t
empty-Reads k p q s t skip = record { word = []; good = (tt, refl); split = refl; last = refl }

empty_leads :
    (k : Class) (p : Option ℕ) (w t : Str)
    → Exactly 0 k w
    → Leads empty p (w ++ t) (last_byte p w) t
empty_leads k p [] t h = skip
empty_leads k p (c ∷ w) t h = absurd (omega arith)

empty-Spells : (k : Class) → Spells empty (Exactly 0 k)
empty-Spells k = record { reads = empty-Reads k; leads = empty_leads k }

first_of : (n : ℕ) (k : Class) (w : Str) → Exactly (suc n) k w → Then (OneOf k) (Exactly n k) w
first_of n k [] h = absurd (omega arith)
first_of n k (c ∷ w) h = (c ∷ [], w, (c, h.0.0, refl), (h.0.1, omega arith), refl)

pub times-Spells : (n : ℕ) (k : Class) → Spells (times n (byte k)) (Exactly n k)
times-Spells zero k = empty-Spells k
times-Spells (suc n) k =
    Spells-map (seq-Spells (byte-Spells k) (times-Spells n k))
      (λ w (u, v, (c, h, e), (all, size), split). rw (split, e) ((h, all), omega arith))
      (first_of n k)

star-Reads :
    (k : Class) (p q : Option ℕ) (s t : Str)
    → Leads (star (byte k)) p s q t
    → Reads (AllIn k) p s q t
star-Reads k p q s t stop = record { word = []; good = tt; split = refl; last = refl }
star-Reads k p q [] t (again d d') = elim d [ ]
star-Reads k p q (c ∷ s) t (again (take_byte h) d) =
    let x = star-Reads k (some c) q s t d in
    record { word = c ∷ x.word; good = (h, x.good); split = ap (λ y. c ∷ y) x.split; last = x.last }

star_leads :
    (k : Class) (p : Option ℕ) (w t : Str)
    → AllIn k w
    → Leads (star (byte k)) p (w ++ t) (last_byte p w) t
star_leads k p [] t h = stop
star_leads k p (c ∷ w) t h = again (take_byte h.0) (star_leads k (some c) w t h.1)

cut_at : (n : ℕ) (k : Class) (w : Str) → AtLeast n k w → Then (Exactly n k) (AllIn k) w
cut_at zero k w h = ([], w, (tt, refl), h.0, refl)
cut_at (suc n) k [] h = absurd (omega arith)
cut_at (suc n) k (c ∷ w) h =
    let (u, v, (a, size), b, split) = cut_at n k w (h.0.1, omega arith) in
    (c ∷ u, v, ((h.0.0, a), omega arith), b, ap (λ x. c ∷ x) split)

join_at : (n : ℕ) (k : Class) (w : Str) → Then (Exactly n k) (AllIn k) w → AtLeast n k w
join_at n k w (u, v, (a, size), b, split) =
    rw split (All-append (λ c. in_class k c ≡ true) u v a b, omega (arith, length-append {0} u v))

pub at_least-Spells : (n : ℕ) (k : Class) → Spells (at_least n (byte k)) (AtLeast n k)
at_least-Spells n k =
    Spells-map
      (seq-Spells (times-Spells n k) (record { reads = star-Reads k; leads = star_leads k }))
      (join_at n k) (cut_at n k)

-- A word of the kind stands alone in the text: no word byte is next to it.
pub record StandsAlone (Q : Str → Type 0) (s : Str) : Type 0 where
  pub before : Str
  pub word : Str
  pub behind : Str
  pub good : Q word
  pub split : s ≡ before ++ (word ++ behind)
  pub free_before : word_before (last_byte none before) ≡ false
  pub free_behind : word_behind behind ≡ false

-- The expression matches at some place of the text.
Found-at :
    (r : Regex) (p : Option ℕ) (s : Str)
    → Found r p s
    → (before : Str) × (t : Str) × (q : Option ℕ) × (u : Str) × (s ≡ before ++ t)
      × Leads r (last_byte p before) t q u
Found-at r p s (here {q = q} {t = u} d) = ([], s, q, u, refl, d)
Found-at r p (c ∷ s) (later f) =
    let (before, t, q, u, split, d) = Found-at r (some c) s f in
    (c ∷ before, t, q, u, ap (λ x. c ∷ x) split, d)

at-Found :
    (r : Regex) (p : Option ℕ) (before t : Str) (q : Option ℕ) (u : Str)
    → Leads r (last_byte p before) t q u
    → Found r p (before ++ t)
at-Found r p [] t q u d = here d
at-Found r p (c ∷ before) t q u d = later (at-Found r (some c) before t q u d)

-- A kind of word that begins and ends with a word byte.
pub record IsSolid (Q : Str → Type 0) : Type 0 where
  pub first : (w t : Str) → Q w → word_behind (w ++ t) ≡ true
  pub final : (w : Str) (p : Option ℕ) → Q w → word_before (last_byte p w) ≡ true

differ-false : (a b : Bool) → differ a b ≡ true → b ≡ true → a ≡ false
unfolding differ
differ-false true b h e = cc
differ-false false b h e = refl

differ-false_behind : (a b : Bool) → differ a b ≡ true → a ≡ true → b ≡ false
unfolding differ
differ-false_behind true b h e = ground arith
differ-false_behind false b h e = cc

module _ {r : Regex} {Q : Str → Type 0} (h : Spells r Q) (i : IsSolid Q) where
  leads-StandsAlone :
      (before : Str) (s t : Str) (q : Option ℕ)
      → Leads (seq boundary (seq r boundary)) (last_byte none before) s q t
      → StandsAlone Q (before ++ s)
  leads-StandsAlone before s t q (both (edge e) (both {q = m} {t = v} d (edge e'))) =
      let x = h.reads (last_byte none before) m s v d in
      record {
        before = before;
        word = x.word;
        behind = v;
        good = x.good;
        split = ap (λ y. before ++ y) x.split;
        free_before = differ-false _ _ e (ap word_behind x.split ∙ i.first x.word v x.good);
        free_behind = differ-false_behind _ _ e' (ap word_before x.last ∙ i.final x.word _ x.good);
      }

  StandsAlone-Found : (s : Str) → StandsAlone Q s → Found (seq boundary (seq r boundary)) none s
  unfolding differ
  StandsAlone-Found s a = rw a.split (
      at-Found _ none a.before (a.word ++ a.behind) _ a.behind (
        both (edge (rw (a.free_before) (i.first a.word a.behind a.good))) (
          both (h.leads (last_byte none a.before) a.word a.behind a.good)
            (edge (rw (i.final a.word (last_byte none a.before) a.good, a.free_behind))))))

  -- Between two word boundaries the expression matches exactly the texts in which a word of its kind
  -- stands alone.
  pub match_string-StandsAlone :
      (s : Str) → (match_string (seq boundary (seq r boundary)) s ≡ true) ↔ StandsAlone Q s
  match_string-StandsAlone s =
      let (sound, complete) = match_string_exact (seq boundary (seq r boundary)) s in
      (
        λ e.
            let (before, t, q, u, split, d) = Found-at _ none s (sound e) in
            subst (StandsAlone Q) (sym split) (leads-StandsAlone before t u q d),
        λ a. complete (StandsAlone-Found s a),
      )
