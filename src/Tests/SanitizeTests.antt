-- ===== src/Tests/SanitizeTests.antt =====
-- The sanitizer on a frame with one node that has a text.
use golem_harness.Base.{
  Str, text, str_eq, str_lt, is_empty, ◌≡◌, ◌≢◌, refl, ◌↔◌, true, false, not, ◌&&◌, Option, none,
  some, List, [], ◌∷◌, map,
}
use golem_harness.Base.Int.{pos}
use golem_harness.Base.Dict.{lookup, insert}
use golem_harness.Strings.{trim_space, contains}
use golem_harness.Strings.Sorting.{IsAscending, sort_strings}
use golem_harness.Signing.{hash_payload}
use golem_harness.Trajectory.{
  RawNode, SanitizedFrame, SanitizedNode, sanitized_node, SanitizedChildren, accept, quarantine,
  hashed, redacted, not_present,
}
use golem_harness.Sanitize.Unique.{unique, unique_exact}
use golem_harness.Sanitize.Redactor.{
  Entity, conservative_ner, Redactor, new_text_redactor, sanitize_attributes, has_regex_pii,
  match_loop, sanitize_text, node,
}
use golem_harness.Sanitize.Nodes.{NodeClean, node-NodeClean}
use golem_harness.Sanitize.Totality.{node_total}
use golem_harness.Sanitize.Process.{process}
use golem_harness.Sanitize.Outcomes.{
  Pipeline, default_sensitive_packages, add_sensitive, add_allowed, new_pipeline, with_defaults,
}
use golem_harness.Sanitize.Process.Decisions.{
  IsAccepted, process_accepts, IsSound, process_frame, frame_of_accept, builtin_quarantined,
}
use golem_harness.Sanitize.Process.Sensitive.{configured_quarantined}
use golem_harness.Tests.Toy.{toy}
use golem_harness.Tests.Frames.{
  has_at, no_bounds, raw_text, frame, calculator, bank, pipeline, calculator_accepted,
}

abbrev start : RawNode
start = raw_text (text "Total 12")

abbrev redaction : Option (SanitizedNode × Redactor)
redaction = node has_at toy conservative_ner start (text "ui_root") new_text_redactor

answers : (raw : Str) → (found : List Entity) × (conservative_ner raw ≡ some found)
answers raw = ([], refl)

node_total_example : (out : SanitizedNode × Redactor) × (redaction ≡ some out)
node_total_example =
    node_total has_at toy conservative_ner answers start (text "ui_root") new_text_redactor

-- The text is hashed, and one rule was applied.
abbrev returned : SanitizedNode × Redactor
returned = (
  sanitized_node
      (record {
        stable_node_id = text "n1";
        bounds = no_bounds;
        class_name = text "TextView";
        package_name = [];
        resource_id_hash = [];
        text_hash = hash_payload toy (text "Total 12");
        text_redaction_status = hashed;
        content_description_hash = [];
        content_description_redaction_status = not_present;
        clickable = true;
        enabled = true;
        focused = false;
        selected = false;
        checkable = false;
      })
      SanitizedChildren.nil,
  record new_text_redactor { rule_set = text "structural_attrition" ∷ [] },
)

redaction-returned : redaction ≡ some returned
unfolding node sanitize_attributes sanitize_text text has_regex_pii match_loop contains
redaction-returned = refl

node-NodeClean_example : NodeClean has_at toy conservative_ner start returned.0
node-NodeClean_example =
    node-NodeClean has_at toy conservative_ner start (text "ui_root") new_text_redactor returned.0
      returned.1 redaction-returned

-- A text with an `@` is redacted.
address_redacted :
    (r : Redactor) × (sanitize_text has_at toy conservative_ner (text "a@b") [] new_text_redactor
      ≡ some (([], redacted), r))
unfolding sanitize_text text has_regex_pii match_loop
address_redacted = (_, refl)

process_accepts_example :
    ((process has_at toy (pos 9) pipeline calculator).1.outcome.decision ≡ accept)
    ↔ IsAccepted has_at toy (pos 9) pipeline calculator
process_accepts_example = process_accepts has_at toy (pos 9) pipeline calculator

abbrev sanitized_calculator :
    (f : SanitizedFrame) × ((process has_at toy (pos 9) pipeline calculator).1.outcome.frame
      ≡ some f)
sanitized_calculator = frame_of_accept has_at toy (pos 9) pipeline calculator calculator_accepted

process_frame_example : IsSound has_at toy (pos 9) pipeline calculator sanitized_calculator.0
process_frame_example =
    process_frame has_at toy (pos 9) pipeline calculator sanitized_calculator.0
      sanitized_calculator.1

-- A pipeline whose NER fails.
abbrev broken : Pipeline
broken = record pipeline { ner = some (λ raw. none) }

calculator_failed : (process has_at toy (pos 9) broken calculator).1.failed ≡ true
unfolding process trim_space text lookup with_defaults new_pipeline add_sensitive insert
    default_sensitive_packages str_eq contains add_allowed node sanitize_attributes sanitize_text
    has_regex_pii match_loop
calculator_failed = refl

bank_named : trim_space bank.foreground_app.package_name ≢ []
unfolding trim_space text
bank_named = λ e. cc

bank_known : lookup (trim_space bank.foreground_app.package_name) default_sensitive_packages ≢ none
unfolding lookup default_sensitive_packages trim_space text str_eq
bank_known = λ e. cc

chat_named : trim_space (text "org.chat") ≢ []
unfolding trim_space text
chat_named = λ e. cc

-- The configuration allows the package too.
configured_quarantined_example :
    let o =
      (process has_at toy
        (pos 9)
        (new_pipeline (text "org.chat" ∷ []) (text "com.x" ∷ text " org.chat " ∷ []))
        (frame (text "org.chat") [])).1.outcome in
    (o.decision ≡ quarantine) × (o.frame ≡ none)
unfolding trim_space text
configured_quarantined_example =
    configured_quarantined has_at toy (pos 9) (text "org.chat" ∷ []) (text "com.x" ∷ []) []
      (text " org.chat ") (frame (text "org.chat") []) chat_named refl

builtin_quarantined_example :
    let o =
      (process has_at toy
        (pos 9)
        (new_pipeline (text "com.example.bank" ∷ []) [])
        bank).1.outcome in
    (o.decision ≡ quarantine) × (o.frame ≡ none)
builtin_quarantined_example =
    builtin_quarantined has_at toy (pos 9) (text "com.example.bank" ∷ []) [] bank bank_named
      bank_known

unique_exact_example :
    let values = text " b" ∷ text "a" ∷ text "b " ∷ [] in
    IsAscending (unique values)
    × ((s : Str)
        → contains s (unique values) ≡ (contains s (map trim_space values) && not (is_empty s)))
unique_exact_example = unique_exact (text " b" ∷ text "a" ∷ text "b " ∷ [])

unique_two : unique (text " b" ∷ text "a" ∷ text "b " ∷ []) ≡ text "a" ∷ text "b" ∷ []
unfolding unique sort_strings trim_space text contains str_eq str_lt
unique_two = refl
