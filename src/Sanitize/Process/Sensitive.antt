-- ===== src/Sanitize/Process/Sensitive.antt =====
-- server/internal/sanitize/sanitize.go: the sensitive packages of a configuration.
use mathlib.Core.Path.{subst}
use golem_harness.Base.{
  Str, text, is_empty, ◌≡◌, ◌≢◌, sym, inl, inr, none, List, [], ◌∷◌, ◌++◌, arith, Bool-cases, Bool,
}
use golem_harness.Base.Dict.{Dict, lookup, insert, lookup-insert_self}
use golem_harness.Clock.{Time}
use golem_harness.Platform.{Platform}
use golem_harness.Strings.{trim_space}
use golem_harness.Trajectory.{quarantine, RawFrame}
use golem_harness.Sanitize.Redactor.{Pattern}
use golem_harness.Sanitize.Process.{process}
use golem_harness.Sanitize.Process.Decisions.{package_of, add_sensitive-keeps, found-quarantined}
use golem_harness.Sanitize.Outcomes.{default_sensitive_packages, add_sensitive, new_pipeline}

add_sensitive-first :
    (name : Str) (after : List Str) (table : Dict Str)
    → trim_space name ≢ []
    → lookup (trim_space name) (add_sensitive (name ∷ after) table) ≢ none
unfolding add_sensitive
add_sensitive-first name after table named =
    let reason = text "configured_sensitive_package" in
    elim (Bool-cases (is_empty (trim_space name))) [
      | inl e ↦ absurd (ground arith)
      | inr e ↦ rw e (
          add_sensitive-keeps after (insert (trim_space name) reason table) (trim_space name)
            (ground (arith, lookup-insert_self (trim_space name) reason table)))
    ]

add_sensitive-adds :
    (before after : List Str) (name : Str) (table : Dict Str)
    → trim_space name ≢ []
    → lookup (trim_space name) (add_sensitive (before ++ name ∷ after) table) ≢ none
unfolding add_sensitive
add_sensitive-adds [] after name table named = add_sensitive-first name after table named
add_sensitive-adds (other ∷ before) after name table named =
    add_sensitive-adds before after name _ named

-- A frame of a package that stands in the configuration's list of sensitive ones, with any white
-- space around it, is quarantined and no frame comes out, whatever else the configuration lists
-- and whether or not it also allows the package.
pub configured_quarantined :
    (matches : Pattern → Str → Bool) (P : Platform) (clock : Time) (allowed before after : List Str)
    (name : Str) (frame : RawFrame)
    → package_of frame ≢ []
    → package_of frame ≡ trim_space name
    → let o =
        (process matches P clock (new_pipeline allowed (before ++ name ∷ after)) frame).1.outcome in
      (o.decision ≡ quarantine) × (o.frame ≡ none)
unfolding new_pipeline
configured_quarantined matches P clock allowed before after name frame named same =
    found-quarantined matches P clock (new_pipeline allowed (before ++ name ∷ after)) frame named (
      subst
        (λ a. lookup a (add_sensitive (before ++ name ∷ after) default_sensitive_packages) ≢ none)
        (sym same)
        (add_sensitive-adds before after name default_sensitive_packages
          (subst (λ a. a ≢ []) same named)))
