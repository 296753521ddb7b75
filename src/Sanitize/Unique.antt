-- ===== src/Sanitize/Unique.antt =====
-- server/internal/sanitize/sanitize.go: `unique`, which trims, drops what is empty or stands twice,
-- and sorts.
use golem_harness.Base.{
  Str, is_empty, ◌≡◌, refl, ◌∙◌, ◌||◌, ◌&&◌, not, List, [], ◌∷◌, ◌++◌, map, arith, str_eq_iff,
  Bool-cases, inl, inr, if◌then◌else◌,
}
use golem_harness.Strings.{trim_space, contains}
use golem_harness.Strings.Sorting.{
  sort_strings, IsAscending, Distinct, contains-sort_strings, sort_strings-IsAscending,
  contains-append, Distinct-append,
}

-- The loop: `out` is also the set `seen`.
unique_loop : List Str → List Str → List Str
unique_loop [] out = out
unique_loop (value ∷ values) out =
    let v = trim_space value in
    unique_loop values (if is_empty v || contains v out then out else out ++ v ∷ [])

unfoldable pub unique : List Str → List Str
unfolding unique_loop
unique values = sort_strings (unique_loop values [])

unique_loop-Distinct : (values out : List Str) → Distinct out → Distinct (unique_loop values out)
unfolding unique_loop
unique_loop-Distinct [] out d = d
unique_loop-Distinct (value ∷ values) out d =
    let v = trim_space value in
    elim (Bool-cases (is_empty v || contains v out)) [
      | inl e ↦ rw e (unique_loop-Distinct values out d)
      | inr e ↦
          rw e
            (unique_loop-Distinct values (out ++ v ∷ []) (Distinct-append out v (ground arith) d))
    ]

contains-unique_loop :
    (s : Str) (values out : List Str)
    → contains s (unique_loop values out)
      ≡ (contains s out || contains s (map trim_space values) && not (is_empty s))
unfolding unique_loop contains
contains-unique_loop s [] out = ground arith
contains-unique_loop s (value ∷ values) out =
    let v = trim_space value in
    ground (
      arith,
      contains-unique_loop s values out,
      contains-unique_loop s values (out ++ v ∷ []),
      contains-append s out (v ∷ []),
      str_eq_iff v s,
    )

-- The result of unique is in strictly ascending order, and a string stands in it exactly if it is
-- not empty and is one of the given strings with the white space round it taken off.
pub unique_exact :
    (values : List Str)
    → IsAscending (unique values)
      × ((s : Str)
          → contains s (unique values) ≡ (contains s (map trim_space values) && not (is_empty s)))
unfolding unique
unique_exact values = (
  sort_strings-IsAscending (unique_loop values []) (unique_loop-Distinct values [] tt),
  λ s.
      contains-sort_strings s (unique_loop values [])
      ∙ (contains-unique_loop s values [] ∙ unfold contains in refl),
)
