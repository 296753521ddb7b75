-- ===== src/Regex/Exact.antt =====
-- The matcher finds a match exactly where there is one, and never runs out of fuel.
use golem_harness.Base.{
  ℕ, zero, suc, ◌≤◌, ◌<◌, Str, ◌≡◌, refl, ap, ◌↔◌, ◌⊎◌, inl, inr, true, ◌&&◌, Option, none, some,
  [], ◌∷◌, arith, length, ltb, Bool-cases,
}
use golem_harness.Regex.{
  Regex, empty, byte, seq, alt, star, boundary, Leads, skip, take_byte, both, left, right, stop,
  again, edge, Found, here, later, Rest, star_loop, run, search, match_string,
}

-- A match takes bytes, or stays at its place.
shrinks :
    {r : Regex} {p q : Option ℕ} {s t : Str}
    → Leads r p s q t
    → (length t < length s) ⊎ ((p ≡ q) × (s ≡ t))
shrinks skip = inr (refl, refl)
shrinks (take_byte h) = inl (omega arith)
shrinks (both d d') = elim (shrinks d) [
  | inl a ↦ elim (shrinks d') [ inl b ↦ inl (omega arith) | inr (e, e') ↦ inl (ground arith) ]
  | inr (e, e') ↦ elim (shrinks d') [ inl b ↦ inl (ground arith) | inr (f, f') ↦ inr (cc, cc) ]
]
shrinks (left d) = shrinks d
shrinks (right d) = shrinks d
shrinks stop = inr (refl, refl)
shrinks (again d d') = elim (shrinks d) [
  | inl a ↦ elim (shrinks d') [ inl b ↦ inl (omega arith) | inr (e, e') ↦ inl (ground arith) ]
  | inr (e, e') ↦ elim (shrinks d') [ inl b ↦ inl (ground arith) | inr (f, f') ↦ inr (cc, cc) ]
]
shrinks (edge h) = inr (refl, refl)

-- The expression leads from the place to one where `k` holds.
abbrev Ends : Regex → Rest → Option ℕ → Str → Type 0
Ends r k p s = (q : Option ℕ) × (t : Str) × Leads r p s q t × (k q t ≡ true)

loop-Ends :
    (r : Regex)
    → ((k : Rest) (p : Option ℕ) (s : Str) → run r k p s ≡ true → Ends r k p s)
    → (fuel : ℕ) (k : Rest) (p : Option ℕ) (s : Str) → star_loop (run r) fuel k p s ≡ true
    → Ends (star r) k p s
unfolding star_loop
loop-Ends r ih zero k p s h = (p, s, stop, h)
loop-Ends r ih (suc fuel) k p s h = elim (Bool-cases (k p s)) [
  | inl e ↦ (p, s, stop, e)
  | inr e ↦
      let (q, t, d, more) =
        ih (λ q t. ltb (length t) (length s) && star_loop (run r) fuel k q t) p s (ground arith) in
      let (u, v, d', last) = loop-Ends r ih fuel k q t (ground arith) in (u, v, again d d', last)
]

run-Ends : (r : Regex) (k : Rest) (p : Option ℕ) (s : Str) → run r k p s ≡ true → Ends r k p s
unfolding run
run-Ends empty k p s h = (p, s, skip, h)
run-Ends (byte c) k p [] h = cc
run-Ends (byte c) k p (x ∷ s) h = (some x, s, take_byte (ground arith), ground arith)
run-Ends (seq r r') k p s h =
    let (q, t, d, more) = run-Ends r (run r' k) p s h in
    let (u, v, d', last) = run-Ends r' k q t more in (u, v, both d d', last)
run-Ends (alt r r') k p s h = elim (Bool-cases (run r k p s)) [
  | inl e ↦ let (q, t, d, last) = run-Ends r k p s e in (q, t, left d, last)
  | inr e ↦ let (q, t, d, last) = run-Ends r' k p s (ground arith) in (q, t, right d, last)
]
run-Ends (star r) k p s h = loop-Ends r (run-Ends r) (length s) k p s h
run-Ends boundary k p s h = (p, s, edge (ground arith), ground arith)

loop-true :
    (r : Regex)
    → ((k : Rest) (p : Option ℕ) (s : Str) (q : Option ℕ) (t : Str)
        → Leads r p s q t
        → k q t ≡ true
        → run r k p s ≡ true)
    → (fuel : ℕ) (k : Rest) {p q : Option ℕ} {s t : Str} → Leads (star r) p s q t
    → k q t ≡ true
    → length s ≤ fuel
    → star_loop (run r) fuel k p s ≡ true
unfolding star_loop
loop-true r ih zero k stop h room = h
loop-true r ih (suc fuel) k stop h room = ground arith
loop-true r ih zero k {p} {s = s} (again {q = q} {t = t} d d') h room = elim (shrinks d) [
  | inl less ↦ absurd (omega arith)
  | inr (e, e') ↦ rw (e, e') (loop-true r ih zero k d' h (omega (arith, ap length e')))
]
loop-true r ih (suc fuel) k {p} {s = s} (again {q = q} {t = t} d d') h room = elim (shrinks d) [
  | inr (e, e') ↦ rw (e, e') (loop-true r ih (suc fuel) k d' h (omega (arith, ap length e')))
  | inl less ↦
      let further = loop-true r ih fuel k d' h (omega arith) in
      let round =
        ih (λ q t. ltb (length t) (length s) && star_loop (run r) fuel k q t) p s q t d
          (ground arith) in
      ground arith
]

run-true :
    (r : Regex) (k : Rest) (p : Option ℕ) (s : Str) (q : Option ℕ) (t : Str)
    → Leads r p s q t
    → k q t ≡ true
    → run r k p s ≡ true
unfolding run
run-true empty k p s q t skip h = h
run-true (byte c) k p [] q t d h = elim d [ ]
run-true (byte c) k p (x ∷ s) q t (take_byte e) h = ground arith
run-true (seq r r') k p s q t (both {q = u} {t = v} d d') h =
    run-true r (run r' k) p s u v d (run-true r' k u v q t d' h)
run-true (alt r r') k p s q t (left d) h = let e = run-true r k p s q t d h in ground arith
run-true (alt r r') k p s q t (right d) h = let e = run-true r' k p s q t d h in ground arith
run-true (star r) k p s q t d h = loop-true r (run-true r) (length s) k d h (omega arith)
run-true boundary k p s q t (edge e) h = ground arith

search-Found : (r : Regex) (p : Option ℕ) (s : Str) → search r p s ≡ true → Found r p s
unfolding search
search-Found r p [] h = here (run-Ends r (λ q t. true) p [] h).2
search-Found r p (c ∷ s) h = elim (Bool-cases (run r (λ q t. true) p (c ∷ s))) [
  | inl e ↦ here (run-Ends r (λ q t. true) p (c ∷ s) e).2
  | inr e ↦ later (search-Found r (some c) s (ground arith))
]

Found-search : (r : Regex) (p : Option ℕ) (s : Str) → Found r p s → search r p s ≡ true
unfolding search
Found-search r p [] (here {q = q} {t = t} d) = run-true r (λ q t. true) p [] q t d refl
Found-search r p (c ∷ s) (here {q = q} {t = t} d) =
    let e = run-true r (λ q t. true) p (c ∷ s) q t d refl in ground arith
Found-search r p (c ∷ s) (later f) = let e = Found-search r (some c) s f in ground arith

-- MatchString answers true exactly for a text in which the expression leads from some place to
-- another.
pub match_string_exact : (r : Regex) (s : Str) → (match_string r s ≡ true) ↔ Found r none s
unfolding match_string
match_string_exact r s = (search-Found r none s, Found-search r none s)
