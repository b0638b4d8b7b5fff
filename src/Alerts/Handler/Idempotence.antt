-- ===== src/Alerts/Handler/Idempotence.antt =====
-- alerts/handler.py: redelivery of a message.
use nanexus_event_intelligen.Prelude.{
  ℕ, ◌+◌, String, ◌≡◌, refl, Bool, true, List, [], ◌∷◌, ◌++◌, arith, string_eq, ==_refl, find?,
  is_some,
}
use nanexus_event_intelligen.Prelude.Sorting.{sorted}
use nanexus_event_intelligen.Core.{ok, Platform, Draws}
use nanexus_event_intelligen.Persistence.Models.{Observation}
use nanexus_event_intelligen.Persistence.Database.{Database, insert_decision, insert_outbox}
use nanexus_event_intelligen.Pipeline.Envelope.{StreamEnvelope}
use nanexus_event_intelligen.Alerts.Models.{ShadowRule, ShadowPolicy, AlertFact, RuleTrace}
use nanexus_event_intelligen.Alerts.Evaluator.{key_le, evaluate_rule, walk, evaluate}
use nanexus_event_intelligen.Alerts.Handler.{
  is_decision_for, latest_revision, fact_of, decision_row, decide, handle,
}

find?-append_last :
    {A : Type 0} (p : A → Bool) (xs : List A) (x : A)
    → p x ≡ true
    → is_some (find? p (xs ++ x ∷ [])) ≡ true
find?-append_last p [] x h = ground arith
find?-append_last p (y ∷ ys) x h = ground (arith, find?-append_last p ys x h)

-- The evaluation carries the policy's own id and version.
pub walk-policy_id :
    (policy : ShadowPolicy) (fact : AlertFact) (traces : List RuleTrace) (rules : List ShadowRule)
    → ((walk policy fact traces rules).policy_id ≡ policy.policy_id)
      × ((walk policy fact traces rules).policy_version ≡ policy.version)
unfolding walk
walk-policy_id policy fact traces [] = (refl, refl)
walk-policy_id policy fact traces (r ∷ rules) =
    ground (arith, walk-policy_id policy fact (traces ++ evaluate_rule r fact ∷ []) rules)

module _ (platform : Platform) (policy : ShadowPolicy) where
  row-is_decision_for :
      (draws : Draws) (o : Observation) (fact : AlertFact) (revision : ℕ)
      → is_decision_for policy o.id (decision_row draws o (evaluate policy fact) revision) ≡ true
  unfolding evaluate
  row-is_decision_for draws o fact revision =
      let (i, v) = walk-policy_id policy fact [] (sorted key_le policy.rules) in
      ground
        (arith, i, v, ==_refl {A = String} policy.policy_id, ==_refl {A = String} policy.version)

  module _ (draws draws' : Draws) (o : Observation) (db db' : Database) where
    decide_twice :
        decide platform policy draws o db ≡ ok (tt, db')
        → decide platform policy draws' o db' ≡ ok (tt, db')
    unfolding decide insert_decision insert_outbox
    decide_twice h = ground (
      arith,
      find?-append_last (is_decision_for policy o.id) db.decisions
          (decision_row draws o (evaluate policy (fact_of o db))
            (latest_revision o.id db.decisions + 1))
          (row-is_decision_for draws o (fact_of o db) (latest_revision o.id db.decisions + 1)),
    )

    decide-observations :
        decide platform policy draws o db ≡ ok (tt, db') → db'.observations ≡ db.observations
    unfolding decide insert_decision insert_outbox
    decide-observations h = ground arith

-- A message that was handled once is handled again, with whatever identifiers and times the second
-- delivery draws, without any change to the database.
pub handle_twice :
    (platform : Platform) (policy : ShadowPolicy) (draws draws' : Draws) (envelope : StreamEnvelope)
    (db db' : Database)
    → handle platform policy draws envelope db ≡ ok (tt, db')
    → handle platform policy draws' envelope db' ≡ ok (tt, db')
unfolding handle
handle_twice platform policy draws draws' envelope db db' h = grind (
  arith,
  decide_twice platform policy draws draws',
  decide-observations platform policy draws draws',
)
