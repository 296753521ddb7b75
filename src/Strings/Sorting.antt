-- ===== src/Strings/Sorting.antt =====
-- sort.Strings. Any sorting gives the same list, since strings that compare equal are equal; this
-- one inserts.
use mathlib.Core.List.{Perm}
use mathlib.Core.List.Perm
use golem_harness.Base.{
  Str, ◌≡◌, refl, ◌∙◌, inl, inr, true, false, List, [], ◌∷◌, All, arith, str_lt, Bool-cases,
  if◌then◌else◌, str_eq, str_eq_iff, ◌||◌, ◌++◌,
}
use golem_harness.Strings.{contains}

insert_sorted : Str → List Str → List Str
insert_sorted s [] = s ∷ []
insert_sorted s (t ∷ ts) = if str_lt t s then t ∷ insert_sorted s ts else s ∷ t ∷ ts

unfoldable pub sort_strings : List Str → List Str
unfolding insert_sorted
sort_strings [] = []
sort_strings (s ∷ ss) = insert_sorted s (sort_strings ss)

str_lt_trans : (r s t : Str) → str_lt r s ≡ true → str_lt s t ≡ true → str_lt r t ≡ true
unfolding str_lt
str_lt_trans [] [] t h k = k
str_lt_trans [] (d ∷ s) [] h k = k
str_lt_trans [] (d ∷ s) (e ∷ t) h k = refl
str_lt_trans (c ∷ r) [] t h k = cc
str_lt_trans (c ∷ r) (d ∷ s) [] h k = cc
str_lt_trans (c ∷ r) (d ∷ s) (e ∷ t) h k = ground (arith, str_lt_trans r s t)

str_lt_connex : (s t : Str) → str_lt s t ≡ false → str_lt t s ≡ false → s ≡ t
unfolding str_lt
str_lt_connex [] [] h k = refl
str_lt_connex [] (d ∷ t) h k = cc
str_lt_connex (c ∷ s) [] h k = cc
str_lt_connex (c ∷ s) (d ∷ t) h k = ground (arith, str_lt_connex s t)

str_lt_asymm : (s t : Str) → str_lt s t ≡ true → str_lt t s ≡ false
unfolding str_lt
str_lt_asymm [] [] h = cc
str_lt_asymm [] (d ∷ t) h = refl
str_lt_asymm (c ∷ s) [] h = cc
str_lt_asymm (c ∷ s) (d ∷ t) h = ground (arith, str_lt_asymm s t)

-- Strictly ascending: sorted, and no string twice.
abbrev pub IsAscending : List Str → Type 0
IsAscending [] = Unit
IsAscending (s ∷ ss) = All (λ t. str_lt s t ≡ true) ss × IsAscending ss

insert_sorted-perm : (s : Str) (ss : List Str) → Perm (insert_sorted s ss) (s ∷ ss)
unfolding insert_sorted
insert_sorted-perm s [] = Perm.refl (s ∷ [])
insert_sorted-perm s (t ∷ ts) = elim (Bool-cases (str_lt t s)) [
  | inl e ↦ rw e (Perm.trans (Perm.cons t (insert_sorted-perm s ts)) (Perm.swap s t ts))
  | inr e ↦ rw e (Perm.refl (s ∷ t ∷ ts))
]

-- Sorting keeps every string, as often as it stands.
pub sort_strings-perm : (ss : List Str) → Perm (sort_strings ss) ss
unfolding sort_strings
sort_strings-perm [] = Perm.refl []
sort_strings-perm (s ∷ ss) =
    Perm.trans (insert_sorted-perm s (sort_strings ss)) (Perm.cons s (sort_strings-perm ss))

-- No string stands twice.
abbrev pub Distinct : List Str → Type 0
Distinct [] = Unit
Distinct (s ∷ ss) = (contains s ss ≡ false) × Distinct ss

contains-insert_sorted :
    (r s : Str) (ss : List Str) → contains r (insert_sorted s ss) ≡ (str_eq s r || contains r ss)
unfolding insert_sorted contains
contains-insert_sorted r s [] = refl
contains-insert_sorted r s (t ∷ ts) = ground (arith, contains-insert_sorted r s ts)

pub contains-sort_strings : (r : Str) (ss : List Str) → contains r (sort_strings ss) ≡ contains r ss
unfolding sort_strings contains
contains-sort_strings r [] = refl
contains-sort_strings r (s ∷ ss) =
    ground (arith, contains-insert_sorted r s (sort_strings ss), contains-sort_strings r ss)

All-insert_sorted :
    (r s : Str) (ss : List Str)
    → str_lt r s ≡ true
    → All (λ t. str_lt r t ≡ true) ss
    → All (λ t. str_lt r t ≡ true) (insert_sorted s ss)
unfolding insert_sorted
All-insert_sorted r s [] h a = (h, tt)
All-insert_sorted r s (t ∷ ts) h a = elim (Bool-cases (str_lt t s)) [
  | inl e ↦ rw e (a.0, All-insert_sorted r s ts h a.1)
  | inr e ↦ rw e (h, a)
]

All-trans :
    (r s : Str) (ss : List Str)
    → str_lt r s ≡ true
    → All (λ t. str_lt s t ≡ true) ss
    → All (λ t. str_lt r t ≡ true) ss
All-trans r s [] h a = tt
All-trans r s (t ∷ ts) h a = (str_lt_trans r s t h a.0, All-trans r s ts h a.1)

insert_sorted-IsAscending :
    (s : Str) (ss : List Str)
    → contains s ss ≡ false
    → IsAscending ss
    → IsAscending (insert_sorted s ss)
unfolding insert_sorted contains
insert_sorted-IsAscending s [] new a = (tt, tt)
insert_sorted-IsAscending s (t ∷ ts) new a = elim (Bool-cases (str_lt t s)) [
  | inl e ↦ rw e (All-insert_sorted t s ts e a.0, insert_sorted-IsAscending s ts (ground arith) a.1)
  | inr e ↦
      let less : str_lt s t ≡ true = ground (arith, str_lt_connex s t, str_eq_iff t s) in
      rw e ((less, All-trans s t ts less a.0), a)
]

-- Sorting strings that are all different puts them in strictly ascending order.
pub sort_strings-IsAscending : (ss : List Str) → Distinct ss → IsAscending (sort_strings ss)
unfolding sort_strings
sort_strings-IsAscending [] d = tt
sort_strings-IsAscending (s ∷ ss) d =
    insert_sorted-IsAscending s (sort_strings ss) (contains-sort_strings s ss ∙ d.0)
      (sort_strings-IsAscending ss d.1)

pub contains-append :
    (r : Str) (ss ts : List Str) → contains r (ss ++ ts) ≡ (contains r ss || contains r ts)
unfolding contains
contains-append r [] ts = refl
contains-append r (s ∷ ss) ts = ground (arith, contains-append r ss ts)

pub Distinct-append :
    (ss : List Str) (s : Str) → contains s ss ≡ false → Distinct ss → Distinct (ss ++ s ∷ [])
unfolding contains
Distinct-append [] s new d = (refl, tt)
Distinct-append (t ∷ ts) s new d = (
  ground (arith, contains-append t ts (s ∷ []), str_eq_iff s t, str_eq_iff t s),
  Distinct-append ts s (ground arith) d.1,
)
