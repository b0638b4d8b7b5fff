-- ===== src/Tests/Alerts.antt =====
-- Runs of alerts/.
use mathlib.Core.List.{Permᴰ}
use nanexus_event_intelligen.Prelude.{some, none, ◌≡◌, refl, List, [], ◌∷◌, arith}
use nanexus_event_intelligen.Core.{ok}
use nanexus_event_intelligen.Alerts.Models.{ShadowRule, ShadowPolicy, AlertFact, ShadowEvaluation}
use nanexus_event_intelligen.Alerts.Policy.{community_policy, person_priority_zone, person_detected}
use nanexus_event_intelligen.Alerts.Evaluator.{evaluate}
use nanexus_event_intelligen.Alerts.FirstMatch.{
  Decided, evaluate-Decided, evaluate_perm, HasDistinctRules,
}
use nanexus_event_intelligen.Alerts.Community.{community_outcome, evaluate-community}
use nanexus_event_intelligen.Alerts.Handler.{fact_of, handle, to_column}
use nanexus_event_intelligen.Alerts.Handler.Dump.{outcome_text}
use nanexus_event_intelligen.Core.Payload.{get, as_text}
use nanexus_event_intelligen.Persistence.Models.{Decision, OutboxEvent}
use nanexus_event_intelligen.Alerts.Handler.Creates.{
  Announces, IsFresh, with_decision, handle-with_decision, handle_creates,
}
use nanexus_event_intelligen.Alerts.Handler.Idempotence.{handle_twice}
use nanexus_event_intelligen.Tests.Sample.{
  platform, draws, later_draws, observation, with_observation, event_fields, persisted,
}

abbrev fact : AlertFact
fact = fact_of observation with_observation

abbrev person_policy : List ShadowRule → ShadowPolicy
person_policy rules = record { policy_id = "p"; version = "1"; rules = rules }

evaluate-Decided_example : Decided community_policy.rules fact (evaluate community_policy fact)
evaluate-Decided_example = evaluate-Decided community_policy fact

evaluate-community_example : (evaluate community_policy fact).outcome ≡ community_outcome fact
evaluate-community_example = evaluate-community fact

announced : Announces platform persisted with_observation observation
announced = record {
  event = event_fields;
  source_id = "ii";
  dedupe_key = "e1:new";
  source = 2;
  kind = refl;
  has_event = refl;
  has_source_id = refl;
  has_dedupe_key = refl;
  parsed = refl;
  found = refl;
}

fresh : IsFresh platform community_policy draws observation with_observation
fresh = record { decision_id = tt; outbox = refl }

abbrev evaluated : ShadowEvaluation
evaluated = evaluate community_policy fact

handle_creates_example :
    (d : Decision) × (e : OutboxEvent) × (handle platform community_policy draws persisted
        with_observation
      ≡ ok (tt, record with_observation { decisions = d ∷ []; outbox_events = e ∷ [] }))
    × (d.subject_type ≡ "observation")
    × (d.subject_id ≡ observation.id)
    × (d.outcome ≡ to_column evaluated.outcome)
    × (d.policy_id ≡ community_policy.policy_id)
    × (d.policy_version ≡ community_policy.version)
    × (d.reasons ≡ evaluated.reasons)
    × Unit {0}
    × (e.event_type ≡ "shadow.decision.created")
    × (e.aggregate_type ≡ "decision")
    × (e.aggregate_id ≡ d.id)
    × (e.published_at ≡ none)
    × (as_text (get "decision_id" e.payload) ≡ some (platform.show_uuid d.id))
    × (as_text (get "observation_id" e.payload) ≡ some (platform.show_uuid observation.id))
    × (as_text (get "outcome" e.payload) ≡ some (outcome_text evaluated.outcome))
handle_creates_example =
    handle_creates platform community_policy draws persisted observation with_observation announced
      refl fresh

handle_twice_example :
    let db = with_decision platform community_policy draws observation with_observation in
    handle platform community_policy later_draws persisted db ≡ ok (tt, db)
handle_twice_example =
    handle_twice platform community_policy draws later_draws persisted with_observation
      (with_decision platform community_policy draws observation with_observation)
      (handle-with_decision platform community_policy draws persisted observation with_observation
        announced refl fresh)

abbrev two_rules : List ShadowRule
two_rules = person_priority_zone ∷ person_detected ∷ []

distinct_rules : HasDistinctRules two_rules
distinct_rules = (((λ same. ground arith), tt), (tt, tt))

evaluate_perm_example :
    evaluate (person_policy (person_detected ∷ person_priority_zone ∷ [])) fact
    ≡ evaluate (person_policy two_rules) fact
evaluate_perm_example =
    evaluate_perm (person_policy two_rules)
      (person_policy (person_detected ∷ person_priority_zone ∷ [])) fact refl refl
      (Permᴰ.swap refl refl) distinct_rules
