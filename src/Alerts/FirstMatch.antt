-- ===== src/Alerts/FirstMatch.antt =====
-- alerts/evaluator.py: which rule decides, and that the order of the rules in the policy is not
-- what decides.
use mathlib.Core.List.{Permᴰ}
use nanexus_event_intelligen.Prelude.{
  ◌≡◌, refl, ap, sym, ◌∙◌, ◌⊎◌, inl, inr, true, false, none, some, List, [], ◌∷◌, ◌++◌, arith, All,
  All-map, Member, Bool-cases,
}
use nanexus_event_intelligen.Prelude.Sorting.{sorted, IsSorted, Member-of_sorted, All-of_sorted}
use nanexus_event_intelligen.Prelude.Permutation.{HasDistinctKeys, sorted-eq_of_perm}
use nanexus_event_intelligen.Alerts.Models.{
  ShadowRule, ShadowPolicy, AlertFact, RuleTrace, ShadowEvaluation, no_action,
}
use nanexus_event_intelligen.Alerts.Evaluator.{key_le, evaluate_rule, walk, evaluate}
use nanexus_event_intelligen.Alerts.RuleOrder.{key_le_total, key_le_trans, sorted_rules-IsSorted}

abbrev pub Matches : AlertFact → ShadowRule → Type 0
Matches fact rule = (evaluate_rule rule fact).matched ≡ true

abbrev pub Misses : AlertFact → ShadowRule → Type 0
Misses fact rule = (evaluate_rule rule fact).matched ≡ false

-- The rule is one of the list, matches, and no matching rule has a smaller key.
pub record IsLeastMatch (rules : List ShadowRule) (fact : AlertFact) (rule : ShadowRule)
    : Type 0 where
  pub member : Member rule rules
  pub matches : Matches fact rule
  pub least : All (λ other. Matches fact other → key_le rule other ≡ true) rules

-- What an evaluation reports when the rule decides, and when none does.
pub record ReportsRule (rule : ShadowRule) (e : ShadowEvaluation) : Type 0 where
  pub outcome : e.outcome ≡ rule.outcome
  pub matched_rule_id : e.matched_rule_id ≡ some rule.rule_id
  pub reasons : e.reasons ≡ rule.description ∷ []

pub record ReportsNone (e : ShadowEvaluation) : Type 0 where
  pub outcome : e.outcome ≡ no_action
  pub matched_rule_id : e.matched_rule_id ≡ none

-- Either a rule of the list decides, or none matches.
abbrev pub Decided : List ShadowRule → AlertFact → ShadowEvaluation → Type 0
Decided rules fact e =
    ((rule : ShadowRule) × IsLeastMatch rules fact rule × ReportsRule rule e)
    ⊎ (All (Misses fact) rules × ReportsNone e)

Misses-least :
    (fact : AlertFact) (rule other : ShadowRule)
    → Misses fact rule
    → Matches fact rule
    → key_le other rule ≡ true
Misses-least fact rule other m n = cc

walk-Decided :
    (policy : ShadowPolicy) (fact : AlertFact) (traces : List RuleTrace) (rules : List ShadowRule)
    → IsSorted key_le rules
    → Decided rules fact (walk policy fact traces rules)
unfolding walk
walk-Decided policy fact traces [] h = inr (tt, record { outcome = refl; matched_rule_id = refl })
walk-Decided policy fact traces (rule ∷ rules) h =
    elim (Bool-cases (evaluate_rule rule fact).matched) [
      | inl e ↦ inl (
        rule,
        record {
          member = inl refl;
          matches = e;
          least = (
            λ _. key_le_self rule,
            All-map (λ r. key_le rule r ≡ true) (λ r. Matches fact r → key_le rule r ≡ true)
                (λ r le _. le) rules h.0,
          );
        },
        rw e (record { outcome = refl; matched_rule_id = refl; reasons = refl }),
      )
      | inr e ↦
          simp e
            (elim (walk-Decided policy fact (traces ++ evaluate_rule rule fact ∷ []) rules h.1) [
              | inl (r, m, reports) ↦ inl (
                r,
                record {
                  member = inr m.member;
                  matches = m.matches;
                  least = (Misses-least fact rule r e, m.least);
                },
                reports,
              )
              | inr (misses, reports) ↦ inr ((refl, misses), reports)
            ])
    ]
  where
    key_le_self : (r : ShadowRule) → key_le r r ≡ true
    key_le_self r = ground (arith, key_le_total r r)

-- The evaluation of a policy takes the outcome, the id and the description of a rule of the policy
-- that matches the fact and comes first by (priority, rule_id) among all that match, however the
-- policy lists its rules; and if it reports no rule, the outcome is `no_action` and none matches.
pub evaluate-Decided :
    (policy : ShadowPolicy) (fact : AlertFact) → Decided policy.rules fact (evaluate policy fact)
unfolding evaluate
evaluate-Decided policy fact =
    elim (walk-Decided policy fact [] (sorted key_le policy.rules)
      (sorted_rules-IsSorted policy.rules)) [
        | inl (r, m, reports) ↦ inl (
          r,
          record {
            member = Member-of_sorted key_le r policy.rules m.member;
            matches = m.matches;
            least = All-of_sorted key_le _ policy.rules m.least;
          },
          reports,
        )
        | inr (misses, reports) ↦ inr (All-of_sorted key_le _ policy.rules misses, reports)
      ]

-- No two rules of the list have the same priority and id.
abbrev pub HasDistinctRules : List ShadowRule → Type 0
HasDistinctRules rules = HasDistinctKeys key_le rules

walk_cong :
    (policy policy' : ShadowPolicy) (fact : AlertFact)
    → policy'.policy_id ≡ policy.policy_id
    → policy'.version ≡ policy.version
    → (traces : List RuleTrace) (rules : List ShadowRule)
    → walk policy' fact traces rules ≡ walk policy fact traces rules
unfolding walk
walk_cong policy policy' fact i v traces [] = ground arith
walk_cong policy policy' fact i v traces (rule ∷ rules) =
    ground (arith, walk_cong policy policy' fact i v (traces ++ evaluate_rule rule fact ∷ []) rules)

-- Two policies with the same id and version, whose rules are the same up to order and have
-- distinct keys, evaluate every fact alike, trace included.
pub evaluate_perm :
    (policy policy' : ShadowPolicy) (fact : AlertFact)
    → policy'.policy_id ≡ policy.policy_id
    → policy'.version ≡ policy.version
    → Permᴰ policy.rules policy'.rules
    → HasDistinctRules policy.rules
    → evaluate policy' fact ≡ evaluate policy fact
unfolding evaluate
evaluate_perm policy policy' fact i v p h =
    walk_cong policy policy' fact i v [] _
    ∙ ap (walk policy fact []) (sym (sorted-eq_of_perm key_le key_le_total key_le_trans p h))
