-- ===== src/Alerts/Evaluator.antt =====
-- alerts/evaluator.py: the rules in the order of (priority, rule_id), the first match decides.
use nanexus_event_intelligen.Prelude.{
  String, Bool, true, false, not, ◌&&◌, ◌||◌, Option, none, some, List, [], ◌∷◌, ◌++◌, ltb, eqb,
  any, all, contains, string_eq, is_some, or_else, if◌then◌else◌,
}
use nanexus_event_intelligen.Prelude.Sorting.{sorted}
use nanexus_event_intelligen.Prelude.Texts.{text_leb, join}
use nanexus_event_intelligen.Localization.{system_text}
use nanexus_event_intelligen.Alerts.Models.{
  RuleMatch, ShadowRule, ShadowPolicy, default_outcome, AlertFact, Checks, RuleTrace,
  ShadowEvaluation,
}

-- `(a.priority, a.rule_id) <= (b.priority, b.rule_id)`
abbrev pub key_le : ShadowRule → ShadowRule → Bool
key_le a b =
    ltb a.priority b.priority || (eqb a.priority b.priority && text_leb a.rule_id b.rule_id)

-- `not wanted or value in wanted`
abbrev admits : List String → String → Bool
admits [] value = true
admits (w ∷ wanted) value = contains (w ∷ wanted) value

-- `bool(a & b)`
abbrev pub meets : List String → List String → Bool
meets a b = any (contains b) a

-- `not wanted or bool(values & wanted)`
abbrev admits_any : List String → List String → Bool
admits_any [] values = true
admits_any (w ∷ wanted) values = meets values (w ∷ wanted)

abbrev is_true : Option Bool → Bool
is_true none = false
is_true (some b) = b

abbrev pub stationary_matches : Option Bool → List (Option Bool) → Bool
stationary_matches none values = true
stationary_matches (some required) [] = false
stationary_matches (some required) (v ∷ values) =
    if any (λ o. not (is_some o)) (v ∷ values)
    then false
    else if required
    then all is_true (v ∷ values)
    else not (all is_true (v ∷ values))

abbrev pub checks_of : RuleMatch → AlertFact → Checks
checks_of match fact = record {
  event_kind = admits match.event_kinds fact.event_kind;
  lifecycle = admits match.lifecycles fact.lifecycle;
  labels_any = admits_any match.labels_any fact.labels;
  zones_any = admits_any match.zones_any fact.zones;
  exclude_labels = not (meets fact.labels match.exclude_labels);
  all_objects_stationary =
      stationary_matches match.require_all_objects_stationary fact.object_stationary;
}

-- `all(checks.values())`
abbrev pub all_passed : Checks → Bool
all_passed c =
    c.event_kind && c.lifecycle && c.labels_any && c.zones_any && c.exclude_labels
    && c.all_objects_stationary

abbrev name_unless : String → Bool → List String → List String
name_unless name passed names = if passed then names else name ∷ names

-- `[name for name, passed in checks.items() if not passed]`
abbrev pub failed_names : Checks → List String
failed_names c = name_unless "event_kind" c.event_kind (
    name_unless "lifecycle" c.lifecycle (
      name_unless "labels_any" c.labels_any (
        name_unless "zones_any" c.zones_any (
          name_unless "exclude_labels" c.exclude_labels
            (name_unless "all_objects_stationary" c.all_objects_stationary [])))))

unfoldable pub explain : ShadowRule → Checks → String
explain rule c =
    if all_passed c
    then rule.description
    else or_else
        (system_text "evaluation.rule_not_matched"
          (("failed_checks", join ", " (failed_names c)) ∷ []))
        ""

unfoldable pub evaluate_rule : ShadowRule → AlertFact → RuleTrace
evaluate_rule rule fact =
    let checks = checks_of rule.match fact in
    record {
      rule_id = rule.rule_id;
      priority = rule.priority;
      matched = all_passed checks;
      checks = checks;
      explanation = explain rule checks;
    }

-- The loop, over the traces gathered so far.
unfoldable pub walk : ShadowPolicy → AlertFact → List RuleTrace → List ShadowRule → ShadowEvaluation
walk policy fact traces [] = record {
  outcome = default_outcome policy;
  policy_id = policy.policy_id;
  policy_version = policy.version;
  matched_rule_id = none;
  reasons = or_else (system_text "evaluation.no_rule_matched" []) "" ∷ [];
  trace = traces;
}
walk policy fact traces (rule ∷ rules) =
    let trace = evaluate_rule rule fact in
    let rest = walk policy fact (traces ++ trace ∷ []) rules in
    if trace.matched
    then record {
      outcome = rule.outcome;
      policy_id = policy.policy_id;
      policy_version = policy.version;
      matched_rule_id = some rule.rule_id;
      reasons = rule.description ∷ [];
      trace = traces ++ trace ∷ [];
    }
    else rest

unfoldable pub evaluate : ShadowPolicy → AlertFact → ShadowEvaluation
evaluate policy fact = walk policy fact [] (sorted key_le policy.rules)
