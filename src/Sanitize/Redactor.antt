-- ===== src/Sanitize/Redactor.antt =====
-- server/internal/sanitize/sanitize.go: textRedactor, which hashes or redacts the texts of a tree
-- of nodes. Two parts of it are parameters: `matches`, the seven regular expressions, and
-- `find_entities`, the NER, where `none` is its error.
use golem_harness.Base.{
  ℕ, ◌+◌, Str, text, is_empty, Bool, true, false, ◌||◌, Option, none, some, List, [], ◌∷◌, ◌++◌,
  if◌then◌else◌,
}
use golem_harness.Base.Int.{ℤ}
use golem_harness.Decimal.{decimal}
use golem_harness.Platform.{Platform}
use golem_harness.Signing.{hash_payload}
use golem_harness.Strings.{contains}
use golem_harness.Strings.Sorting.{sort_strings}
use golem_harness.Trajectory.{
  RawAttributes, RawNode, RawChildren, raw_node, SanitizedAttributes, SanitizedNode,
  SanitizedChildren, sanitized_node, RedactionStatus, not_present, hashed, redacted,
}

-- The regular expressions of hasRegexPII, in their order.
pub data Pattern : Type 0 where
  email phone ssn payment_card address token long_numeric : Pattern

unfoldable pub pattern_name : Pattern → Str
unfolding text
pattern_name email = text "regex_email"
pattern_name phone = text "regex_phone"
pattern_name ssn = text "regex_ssn"
pattern_name payment_card = text "regex_payment_card"
pattern_name address = text "regex_address"
pattern_name token = text "regex_token"
pattern_name long_numeric = text "regex_long_numeric_identifier"

abbrev pub patterns : List Pattern
patterns = email ∷ phone ∷ ssn ∷ payment_card ∷ address ∷ token ∷ long_numeric ∷ []

-- type Entity. The float64 is given by its bits; the redactor only asks whether there is an entity.
pub record Entity : Type 0 where
  pub start : ℤ
  pub stop : ℤ
  pub label : Str
  pub confidence_bits : ℕ

abbrev pub Ner : Type 0
Ner = Str → Option (List Entity)

-- ConservativeNER
abbrev pub conservative_ner : Ner
conservative_ner _ = some []

-- type textRedactor, without its NER; the rules are the members of ruleSet
pub record Redactor : Type 0 where
  pub rule_set : List Str
  pub fields_dropped : List Str
  pub reason_codes : List Str

-- newTextRedactor
abbrev pub new_text_redactor : Redactor
new_text_redactor = record { rule_set = []; fields_dropped = []; reason_codes = [] }

abbrev pub add_rule : Str → Redactor → Redactor
add_rule rule r = record r {
  rule_set = if contains rule r.rule_set then r.rule_set else r.rule_set ++ rule ∷ [];
}

abbrev pub add_reason : Str → Redactor → Redactor
add_reason reason r = record r { reason_codes = r.reason_codes ++ reason ∷ [] }

abbrev pub add_field : Str → Redactor → Redactor
add_field field r = record r { fields_dropped = r.fields_dropped ++ field ∷ [] }

-- rules
unfoldable pub rules : Redactor → List Str
rules r = sort_strings r.rule_set

-- strconvI
abbrev pub strconv_i : ℕ → Str
strconv_i i = decimal i

infixl 5 ◌>>=◌
abbrev pub ◌>>=◌ {ℓ κ} : {A : Type ℓ} {B : Type κ} → Option A → (A → Option B) → Option B
none >>= f = none
some a >>= f = f a

module _ (matches : Pattern → Str → Bool) where
  -- The loop of hasRegexPII.
  unfoldable pub match_loop : List Pattern → Str → Redactor → Bool × Redactor
  match_loop [] raw r = (false, r)
  match_loop (p ∷ ps) raw r =
      let hit = matches p raw in
      let (matched, r') =
        match_loop ps raw
          (if hit then add_reason (pattern_name p) (add_rule (pattern_name p) r) else r) in
      (hit || matched, r')

  -- hasRegexPII
  unfoldable pub has_regex_pii : Str → Str → Redactor → Bool × Redactor
  has_regex_pii raw field r =
      let (matched, r') = match_loop patterns raw r in
      if matched
      then (true, add_field field (add_reason (text "redacted_sensitive_text") r'))
      else (false, r')

  module _ (P : Platform) (find_entities : Ner) where
    -- sanitizeText, behind the regular expressions
    unfoldable pub ask_ner : Str → Str → Redactor → Option ((Str × RedactionStatus) × Redactor)
    ask_ner raw field r = elim (find_entities raw) [
      | none ↦ none
      | some [] ↦ some ((hash_payload P raw, hashed), r)
      | some (entity ∷ more) ↦ some (
        ([], redacted),
        add_field field (
            add_reason (text "local_ner_entity_detected")
              (add_rule (text "local_ner_redaction") r)),
      )
    ]

    -- sanitizeText; `none` is its error
    unfoldable pub sanitize_text :
        Str → Str → Redactor → Option ((Str × RedactionStatus) × Redactor)
    unfolding ask_ner
    sanitize_text raw field r =
        if is_empty raw
        then some (([], not_present), r)
        else let (matched, r') =
            has_regex_pii raw field (add_rule (text "structural_attrition") r) in
          if matched then some (([], redacted), add_field field r') else ask_ner raw field r'

    -- The fields of a sanitized node.
    abbrev pub attributes :
        RawAttributes → Str × RedactionStatus → Str × RedactionStatus → SanitizedAttributes
    attributes a raw_text description = record {
      stable_node_id = a.stable_node_id;
      bounds = a.bounds;
      class_name = a.class_name;
      package_name = a.package_name;
      resource_id_hash = a.resource_id_hash;
      text_hash = raw_text.0;
      text_redaction_status = raw_text.1;
      content_description_hash = description.0;
      content_description_redaction_status = description.1;
      clickable = a.clickable;
      enabled = a.enabled;
      focused = a.focused;
      selected = a.selected;
      checkable = a.checkable;
    }

    -- The two texts of a node.
    unfoldable pub sanitize_attributes :
        RawAttributes → Str → Redactor → Option (SanitizedAttributes × Redactor)
    sanitize_attributes a path r = do
      (raw_text, r1) ← sanitize_text a.raw_text (path ++ text ".pre_storage_text") r
      (description, r2) ←
          sanitize_text a.raw_content_description (path ++ text ".pre_storage_content_description")
            r1
      some (attributes a raw_text description, r2)

    -- The path of child i.
    abbrev pub child_path : Str → ℕ → Str
    child_path path i = path ++ (text ".children[" ++ (strconv_i i ++ text "]"))

    -- textRedactor.node, and its loop over the children from number i on
    unfoldable mutual
      pub node : RawNode → Str → Redactor → Option (SanitizedNode × Redactor)
      node (raw_node a cs) path r = sanitize_attributes a path r >>= λ done.
          children cs path 0 done.1 >>= λ rest. some (sanitized_node done.0 rest.0, rest.1)

      pub children : RawChildren → Str → ℕ → Redactor → Option (SanitizedChildren × Redactor)
      children RawChildren.nil path i r = some (SanitizedChildren.nil, r)
      children (RawChildren.cons n cs) path i r = node n (child_path path i) r >>= λ done.
          children cs path (i + 1) done.1 >>= λ rest.
          some (SanitizedChildren.cons done.0 rest.0, rest.1)
