-- ===== src/Sanitize/Nodes.antt =====
-- What the redactor lets through: the shape of the tree and its attributes, and of each text a hash
-- at most, and that only if no pattern matches it and the NER finds nothing in it.
use mathlib.Core.Path.{subst}
use golem_harness.Base.{
  ℕ, ◌+◌, Str, text, ◌≡◌, ◌≢◌, refl, inl, inr, Bool, true, false, ◌||◌, Option, none, some, List,
  [], ◌∷◌, ◌++◌, arith, Bool-cases, Option-cases,
}
use golem_harness.Platform.{Platform}
use golem_harness.Signing.{hash_payload}
use golem_harness.Trajectory.{
  RawAttributes, RawNode, RawChildren, raw_node, SanitizedAttributes, SanitizedNode,
  SanitizedChildren, sanitized_node, RedactionStatus, not_present, hashed, redacted,
}
use golem_harness.Sanitize.Redactor.{
  Pattern, email, phone, ssn, payment_card, address, token, long_numeric, Entity, Ner, Redactor,
  add_rule, match_loop, has_regex_pii, ask_ner, sanitize_text, attributes, sanitize_attributes,
  child_path, node, children, ◌>>=◌,
}

module _ (matches : Pattern → Str → Bool) where
  -- Some pattern matches the text.
  abbrev pub is_pii : Str → Bool
  is_pii raw =
      matches email raw
      || (matches phone raw
          || (matches ssn raw
              || (matches payment_card raw
                  || (matches address raw || (matches token raw || matches long_numeric raw)))))

  pub has_regex_pii-eq-is_pii :
      (raw field : Str) (r : Redactor) → (has_regex_pii matches raw field r).0 ≡ is_pii raw
  unfolding has_regex_pii match_loop
  has_regex_pii-eq-is_pii raw field r = ground arith

  module _ (P : Platform) (find_entities : Ner) where
    -- What may stand for a text.
    pub data IsClean (raw : Str) (out : Str × RedactionStatus) : Type 0 where
      absent : raw ≡ [] → out ≡ ([], not_present) → IsClean raw out
      matched : raw ≢ [] → is_pii raw ≡ true → out ≡ ([], redacted) → IsClean raw out
      named :
          (entity : Entity) (more : List Entity)
          → raw ≢ []
          → is_pii raw ≡ false
          → find_entities raw ≡ some (entity ∷ more)
          → out ≡ ([], redacted)
          → IsClean raw out
      plain :
          raw ≢ []
          → is_pii raw ≡ false
          → find_entities raw ≡ some []
          → out ≡ (hash_payload P raw, hashed)
          → IsClean raw out

    ask_ner-IsClean :
        (raw field : Str) (r : Redactor) (out : Str × RedactionStatus) (r' : Redactor)
        → raw ≢ []
        → is_pii raw ≡ false
        → ask_ner matches P find_entities raw field r ≡ some (out, r')
        → IsClean raw out
    unfolding ask_ner
    ask_ner-IsClean raw field r out r' present clear h = elim (Option-cases (find_entities raw)) [
      | inl e ↦ absurd (ground arith)
      | inr ([], e) ↦ plain present clear e (ground arith)
      | inr (entity ∷ more, e) ↦ named entity more present clear e (ground arith)
    ]

    sanitize_text-IsClean :
        (raw field : Str) (r : Redactor) (out : Str × RedactionStatus) (r' : Redactor)
        → sanitize_text matches P find_entities raw field r ≡ some (out, r')
        → IsClean raw out
    unfolding sanitize_text
    sanitize_text-IsClean [] field r out r' h = absent refl (ground arith)
    sanitize_text-IsClean (c ∷ s) field r out r' h =
        let raw = c ∷ s in
        let r1 = add_rule (text "structural_attrition") r in
        let same = has_regex_pii-eq-is_pii raw field r1 in
        elim (Bool-cases (is_pii raw)) [
          | inl e ↦ matched (λ x. cc) e (ground arith)
          | inr e ↦
              ask_ner-IsClean raw field (has_regex_pii matches raw field r1).1 out r' (λ x. cc) e
                (ground arith)
        ]

    -- The attributes of a node after the redactor. The two texts are clean, and all else is as it
    -- was.
    pub record AttributesClean (a : RawAttributes) (b : SanitizedAttributes) : Type 0 where
      pub text_clean : IsClean a.raw_text (b.text_hash, b.text_redaction_status)
      pub description_clean :
          IsClean a.raw_content_description
            (b.content_description_hash, b.content_description_redaction_status)
      pub stable_node_id : b.stable_node_id ≡ a.stable_node_id
      pub bounds : b.bounds ≡ a.bounds
      pub class_name : b.class_name ≡ a.class_name
      pub package_name : b.package_name ≡ a.package_name
      pub resource_id_hash : b.resource_id_hash ≡ a.resource_id_hash
      pub clickable : b.clickable ≡ a.clickable
      pub enabled : b.enabled ≡ a.enabled
      pub focused : b.focused ≡ a.focused
      pub selected : b.selected ≡ a.selected
      pub checkable : b.checkable ≡ a.checkable

    attributes-AttributesClean :
        (a : RawAttributes) (raw_text description : Str × RedactionStatus)
        → IsClean a.raw_text raw_text
        → IsClean a.raw_content_description description
        → AttributesClean a (attributes matches P find_entities a raw_text description)
    attributes-AttributesClean a raw_text description text_clean description_clean = record {
      text_clean = text_clean;
      description_clean = description_clean;
      stable_node_id = refl;
      bounds = refl;
      class_name = refl;
      package_name = refl;
      resource_id_hash = refl;
      clickable = refl;
      enabled = refl;
      focused = refl;
      selected = refl;
      checkable = refl;
    }

    sanitize_attributes-AttributesClean :
        (a : RawAttributes) (path : Str) (r : Redactor) (b : SanitizedAttributes) (r' : Redactor)
        → sanitize_attributes matches P find_entities a path r ≡ some (b, r')
        → AttributesClean a b
    unfolding sanitize_attributes
    sanitize_attributes-AttributesClean a path r b r' h =
        elim (Option-cases
          (sanitize_text matches P find_entities a.raw_text (path ++ text ".pre_storage_text") r)) [
            | inl e ↦ absurd (ground arith)
            | inr ((t, r1), e) ↦
                elim (Option-cases (
                  sanitize_text matches P find_entities a.raw_content_description
                    (path ++ text ".pre_storage_content_description") r1)) [
                      | inl e' ↦ absurd (ground arith)
                      | inr ((d, r2), e') ↦ subst (AttributesClean a) (ground arith) (
                          attributes-AttributesClean a t d
                            (sanitize_text-IsClean a.raw_text _ r t r1 e)
                            (sanitize_text-IsClean a.raw_content_description _ r1 d r2 e'))
                    ]
          ]

    -- The tree after the redactor: the same shape, with clean attributes throughout.
    mutual
      pub data NodeClean : RawNode → SanitizedNode → Type 0 where
        node_clean :
            {a : RawAttributes} {b : SanitizedAttributes} {cs : RawChildren}
            {ds : SanitizedChildren}
            → AttributesClean a b
            → ChildrenClean cs ds
            → NodeClean (raw_node a cs) (sanitized_node b ds)

      pub data ChildrenClean : RawChildren → SanitizedChildren → Type 0 where
        nil_clean : ChildrenClean RawChildren.nil SanitizedChildren.nil
        cons_clean :
            {n : RawNode} {m : SanitizedNode} {cs : RawChildren} {ds : SanitizedChildren}
            → NodeClean n m
            → ChildrenClean cs ds
            → ChildrenClean (RawChildren.cons n cs) (SanitizedChildren.cons m ds)

    -- Inversion of a bind.
    bind_inv {ℓ κ} :
        {A : Type ℓ} {B : Type κ} (m : Option A) (f : A → Option B) {b : B}
        → (m >>= f) ≡ some b
        → (a : A) × (m ≡ some a) × (f a ≡ some b)
    bind_inv none f h = cc
    bind_inv (some a) f h = (a, refl, h)

    mutual
      unfolding node

      node-NodeClean_onto :
          (n : RawNode) (path : Str) (r : Redactor) (m : SanitizedNode) (r' : Redactor)
          → node matches P find_entities n path r ≡ some (m, r')
          → NodeClean n m
      node-NodeClean_onto (raw_node a cs) path r m r' h =
          let (b, e1, h1) = bind_inv (sanitize_attributes matches P find_entities a path r) _ h in
          let (ds, e2, h2) = bind_inv (children matches P find_entities cs path 0 b.1) _ h1 in
          subst (NodeClean (raw_node a cs)) (cc) (
            node_clean (sanitize_attributes-AttributesClean a path r b.0 b.1 e1)
              (children-ChildrenClean cs path 0 b.1 ds.0 ds.1 e2))

      children-ChildrenClean :
          (cs : RawChildren) (path : Str) (i : ℕ) (r : Redactor) (ds : SanitizedChildren)
          (r' : Redactor)
          → children matches P find_entities cs path i r ≡ some (ds, r')
          → ChildrenClean cs ds
      children-ChildrenClean RawChildren.nil path i r ds r' h =
          subst (ChildrenClean RawChildren.nil) (cc) nil_clean
      children-ChildrenClean (RawChildren.cons n cs) path i r ds r' h =
          let (m, e1, h1) =
            bind_inv (node matches P find_entities n (child_path matches P find_entities path i) r)
              _ h in
          let (rest, e2, h2) =
            bind_inv (children matches P find_entities cs path (i + 1) m.1) _ h1 in
          subst (ChildrenClean (RawChildren.cons n cs)) (cc) (
            cons_clean (node-NodeClean_onto n _ r m.0 m.1 e1)
              (children-ChildrenClean cs path (i + 1) m.1 rest.0 rest.1 e2))

    -- A tree that the redactor returns has the shape of the one it was given and, at each node,
    -- every field of it but the two texts; an absent text stays absent, a text that a pattern
    -- matches or in which the NER finds an entity is blank and redacted, and only what is left is
    -- represented, by its hash.
    pub node-NodeClean :
        (n : RawNode) (path : Str) (r : Redactor) (m : SanitizedNode) (r' : Redactor)
        → node matches P find_entities n path r ≡ some (m, r')
        → NodeClean n m
    node-NodeClean n path r m r' h = node-NodeClean_onto n path r m r' h
