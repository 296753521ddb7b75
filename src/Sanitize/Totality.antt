-- ===== src/Sanitize/Totality.antt =====
-- The redactor comes to an end on every tree.
use golem_harness.Base.{
  ℕ, ◌+◌, Str, text, ◌≡◌, refl, inl, inr, Bool, some, List, ◌++◌, arith, Option-cases,
}
use golem_harness.Platform.{Platform}
use golem_harness.Trajectory.{
  RawAttributes, RawNode, RawChildren, raw_node, SanitizedAttributes, SanitizedNode,
  SanitizedChildren, sanitized_node, RedactionStatus,
}
use golem_harness.Sanitize.Redactor.{
  Pattern, Entity, Ner, Redactor, sanitize_text, attributes, sanitize_attributes, child_path, node,
  children,
}

module _ (matches : Pattern → Str → Bool) (P : Platform) (find_entities : Ner)
    (answers : (raw : Str) → (found : List Entity) × (find_entities raw ≡ some found)) where
  sanitize_text_total :
      (raw field : Str) (r : Redactor)
      → (out : (Str × RedactionStatus) × Redactor) × (sanitize_text matches P find_entities raw
            field r
          ≡ some out)
  unfolding sanitize_text
  sanitize_text_total raw field r =
      elim (Option-cases (sanitize_text matches P find_entities raw field r)) [
        | inl e ↦ absurd (ground (arith, (answers raw).1))
        | inr found ↦ found
      ]

  sanitize_attributes_total :
      (a : RawAttributes) (path : Str) (r : Redactor)
      → (out : SanitizedAttributes × Redactor) × (sanitize_attributes matches P find_entities a path
            r
          ≡ some out)
  unfolding sanitize_attributes
  sanitize_attributes_total a path r =
      let (x, e) = sanitize_text_total a.raw_text (path ++ text ".pre_storage_text") r in
      let (y, e') =
        sanitize_text_total a.raw_content_description
          (path ++ text ".pre_storage_content_description") x.1 in
      ((attributes matches P find_entities a x.0 y.0, y.1), ground (arith, e, e'))

  mutual
    unfolding node

    node_total_onto :
        (n : RawNode) (path : Str) (r : Redactor)
        → (out : SanitizedNode × Redactor) × (node matches P find_entities n path r ≡ some out)
    node_total_onto (raw_node a cs) path r =
        let (x, e) = sanitize_attributes_total a path r in
        let (y, e') = children_total cs path 0 x.1 in ((sanitized_node x.0 y.0, y.1), rw e (rw e'))

    children_total :
        (cs : RawChildren) (path : Str) (i : ℕ) (r : Redactor)
        → (out : SanitizedChildren × Redactor) × (children matches P find_entities cs path i r
            ≡ some out)
    children_total RawChildren.nil path i r = ((SanitizedChildren.nil, r), refl)
    children_total (RawChildren.cons n cs) path i r =
        let (x, e) = node_total_onto n (child_path matches P find_entities path i) r in
        let (y, e') = children_total cs path (i + 1) x.1 in
        ((SanitizedChildren.cons x.0 y.0, y.1), rw e (rw e'))

  -- Where the NER answers for every text, the redactor returns a tree for every tree.
  pub node_total :
      (n : RawNode) (path : Str) (r : Redactor)
      → (out : SanitizedNode × Redactor) × (node matches P find_entities n path r ≡ some out)
  node_total n path r = node_total_onto n path r
