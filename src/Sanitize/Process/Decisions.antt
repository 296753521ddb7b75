-- ===== src/Sanitize/Process/Decisions.antt =====
-- server/internal/sanitize/sanitize.go: which frames the pipeline accepts, drops and quarantines.
use mathlib.Core.Path.{subst}
use golem_harness.Base.{
  Str, text, is_empty, ◌≡◌, ◌≢◌, sym, ◌↔◌, inl, inr, Bool, true, false, none, some, List, [], ◌∷◌,
  arith, Bool-cases, Option-cases,
}
use golem_harness.Base.Dict.{Dict, lookup, insert, lookup-insert}
use golem_harness.Clock.{Time}
use golem_harness.Platform.{Platform}
use golem_harness.Strings.{trim_space, contains}
use golem_harness.Trajectory.{
  accept, drop, quarantine, RawFrame, SanitizedFrame, SanitizedNode, RedactionBox,
}
use golem_harness.Sanitize.Redactor.{
  Pattern, Ner, conservative_ner, Redactor, new_text_redactor, node,
}
use golem_harness.Sanitize.Nodes.{NodeClean, node-NodeClean}
use golem_harness.Sanitize.Process.{Processed, process}
use golem_harness.Sanitize.Outcomes.{
  VisionRedactor, noop_vision_redactor, Pipeline, default_sensitive_packages, add_sensitive,
  new_pipeline, default_version, dropped_as, quarantined_as, or_else, with_defaults,
  sanitized_frame, accepted_as,
}

abbrev pub package_of : RawFrame → Str
package_of frame = trim_space frame.foreground_app.package_name

abbrev pub ner_of : Pipeline → Ner
ner_of p = or_else p.ner conservative_ner

abbrev pub vision_of : Pipeline → VisionRedactor
vision_of p = or_else p.vision noop_vision_redactor

module _ (matches : Pattern → Str → Bool) (P : Platform) (clock : Time) (p : Pipeline)
    (frame : RawFrame) where
  abbrev result : Processed
  result = (process matches P clock p frame).1

  -- What an accepted frame is.
  pub record IsAccepted : Type 0 where
    pub named : package_of frame ≢ []
    pub insensitive : lookup (package_of frame) p.sensitive_packages ≡ none
    pub allowed : contains (package_of frame) p.allowed_packages ≡ true
    pub root : SanitizedNode
    pub redactor : Redactor
    pub boxes : List RedactionBox
    pub redacts :
        node matches P (ner_of p) frame.ui_root (text "ui_root") new_text_redactor
        ≡ some (root, redactor)
    pub covers : vision_of p frame.screenshot_ref ≡ some boxes

  accept→IsAccepted : result.outcome.decision ≡ accept → IsAccepted
  unfolding process dropped_as quarantined_as accepted_as with_defaults
  accept→IsAccepted h =
      elim (Option-cases
        (node matches P (ner_of p) frame.ui_root (text "ui_root") new_text_redactor)) [
          | inl e ↦ absurd (ground arith)
          | inr ((root, r), e) ↦ elim (Option-cases (vision_of p frame.screenshot_ref)) [
            | inl e' ↦ absurd (ground arith)
            | inr (boxes, e') ↦ record {
              named = ground arith;
              insensitive = ground arith;
              allowed = ground arith;
              root = root;
              redactor = r;
              boxes = boxes;
              redacts = e;
              covers = e';
            }
          ]
        ]

  IsAccepted→accept : IsAccepted → result.outcome.decision ≡ accept
  unfolding process dropped_as quarantined_as accepted_as with_defaults
  IsAccepted→accept a = ground (arith, a.redacts, a.covers)

  -- A frame is accepted exactly if its package name, trimmed, is not empty, is no sensitive
  -- package and is allowed, and neither the NER nor the vision redactor fails on it.
  pub process_accepts : (result.outcome.decision ≡ accept) ↔ IsAccepted
  process_accepts = (accept→IsAccepted, IsAccepted→accept)

  -- What an outcome with a frame is: accepted, with a clean tree and the identifiers of the raw
  -- frame, and marked with a version and the decision that the storage asks for.
  pub record IsSound (f : SanitizedFrame) : Type 0 where
    pub decision : result.outcome.decision ≡ accept
    pub failed : result.failed ≡ false
    pub clean : NodeClean matches P (ner_of p) frame.ui_root f.ui_root
    pub protocol_version : f.protocol_version ≡ frame.protocol_version
    pub trajectory_id : f.trajectory_id ≡ frame.trajectory_id
    pub frame_id : f.frame_id ≡ frame.frame_id
    pub sequence : f.sequence ≡ frame.sequence
    pub device : f.device ≡ frame.device
    pub version : f.sanitizer.sanitizer_version ≢ []
    pub marked : f.sanitizer.decision ≡ accept
    pub stamped : f.sanitized_at ≡ or_else p.now clock

  process_frame_at :
      (f : SanitizedFrame) (root : SanitizedNode) (r : Redactor)
      → node matches P (ner_of p) frame.ui_root (text "ui_root") new_text_redactor ≡ some (root, r)
      → result.outcome.frame ≡ some f
      → IsSound f
  unfolding process dropped_as quarantined_as accepted_as with_defaults sanitized_frame
      default_version
  process_frame_at f root r e h =
      let same : f.ui_root ≡ root = ground arith in
      record {
        decision = ground arith;
        failed = ground arith;
        clean =
            subst (NodeClean matches P (ner_of p) frame.ui_root) (sym same)
              (node-NodeClean matches P (ner_of p) frame.ui_root _ new_text_redactor root r e);
        protocol_version = ground arith;
        trajectory_id = ground arith;
        frame_id = ground arith;
        sequence = ground arith;
        device = ground arith;
        version = ground arith;
        marked = ground arith;
        stamped = ground arith;
      }

  -- A frame comes out of Process only with the decision to accept and no error; its tree is the
  -- raw frame's, field by field, but for the texts, each of which is blank, redacted or replaced
  -- by its hash; its identifiers and device are the raw frame's, and it carries a version, the
  -- accept decision and the pipeline's time.
  pub process_frame : (f : SanitizedFrame) → result.outcome.frame ≡ some f → IsSound f
  unfolding process dropped_as quarantined_as
  process_frame f h =
      elim (Option-cases
        (node matches P (ner_of p) frame.ui_root (text "ui_root") new_text_redactor)) [
          | inl e ↦ absurd (ground arith)
          | inr ((root, r), e) ↦ process_frame_at f root r e h
        ]

  -- An accepted outcome has a frame.
  pub frame_of_accept :
      result.outcome.decision ≡ accept → (f : SanitizedFrame) × (result.outcome.frame ≡ some f)
  unfolding process dropped_as quarantined_as accepted_as with_defaults
  frame_of_accept h = elim (Option-cases result.outcome.frame) [
    | inl e ↦ absurd (ground arith)
    | inr found ↦ found
  ]

  -- An error of Process always comes with the decision to drop and without a frame.
  pub process_failed :
      result.failed ≡ true → (result.outcome.decision ≡ drop) × (result.outcome.frame ≡ none)
  unfolding process dropped_as
  process_failed h = ground arith

  -- A frame of a sensitive package is quarantined with that package's reason, allowed or not,
  -- without an error, and no frame comes out.
  pub process_sensitive :
      (reason : Str)
      → package_of frame ≢ []
      → lookup (package_of frame) p.sensitive_packages ≡ some reason
      → (result.outcome.decision ≡ quarantine)
        × (result.outcome.frame ≡ none)
        × (result.outcome.kill_switch_reason ≡ reason)
        × (result.failed ≡ false)
  unfolding process quarantined_as with_defaults
  process_sensitive reason named h = ground arith

pub add_sensitive-keeps :
    (sensitive : List Str) (table : Dict Str) (app : Str)
    → lookup app table ≢ none
    → lookup app (add_sensitive sensitive table) ≢ none
unfolding add_sensitive
add_sensitive-keeps [] table app h = h
add_sensitive-keeps (s ∷ rest) table app h =
    let name = trim_space s in
    elim (Bool-cases (is_empty name)) [
      | inl e ↦ rw e (add_sensitive-keeps rest table app h)
      | inr e ↦ rw e (
          add_sensitive-keeps rest (insert name (text "configured_sensitive_package") table) app
            (ground (arith, lookup-insert name app (text "configured_sensitive_package") table)))
    ]

pub found-quarantined :
    (matches : Pattern → Str → Bool) (P : Platform) (clock : Time) (p : Pipeline) (frame : RawFrame)
    → package_of frame ≢ []
    → lookup (package_of frame) p.sensitive_packages ≢ none
    → let o = (process matches P clock p frame).1.outcome in
      (o.decision ≡ quarantine) × (o.frame ≡ none)
found-quarantined matches P clock p frame named found =
    elim (Option-cases (lookup (package_of frame) p.sensitive_packages)) [
      | inl e ↦ absurd (found e)
      | inr (reason, e) ↦
          let q = process_sensitive matches P clock p frame reason named e in (q.0, q.1)
    ]

-- A frame of a built-in sensitive package is quarantined and no frame comes out, whatever packages
-- the configuration allows or adds as sensitive.
pub builtin_quarantined :
    (matches : Pattern → Str → Bool) (P : Platform) (clock : Time) (allowed sensitive : List Str)
    (frame : RawFrame)
    → package_of frame ≢ []
    → lookup (package_of frame) default_sensitive_packages ≢ none
    → let o = (process matches P clock (new_pipeline allowed sensitive) frame).1.outcome in
      (o.decision ≡ quarantine) × (o.frame ≡ none)
unfolding new_pipeline
builtin_quarantined matches P clock allowed sensitive frame named builtin =
    found-quarantined matches P clock (new_pipeline allowed sensitive) frame named
      (add_sensitive-keeps sensitive default_sensitive_packages (package_of frame) builtin)
