-- ===== src/Alerts/Community.antt =====
-- alerts/policy.py under alerts/evaluator.py: what the Community policy decides.
use nanexus_event_intelligen.Prelude.{
  String, ◌≡◌, refl, Bool, true, false, not, ◌&&◌, ◌||◌, Option, none, ◌==◌, some, List, [], ◌∷◌,
  arith, contains, string_eq, text_iff, if◌then◌else◌,
}
use nanexus_event_intelligen.Prelude.Sorting.{sorted}
use nanexus_event_intelligen.Alerts.Models.{Outcome, send, suppress, escalate, no_action, AlertFact}
use nanexus_event_intelligen.Alerts.Evaluator.{
  key_le, meets, stationary_matches, evaluate_rule, walk, evaluate,
}
use nanexus_event_intelligen.Alerts.Policy.{
  person_priority_zone, person_detected, stationary_non_person_update, vehicle_detected,
  community_policy,
}

abbrev has_person : AlertFact → Bool
has_person fact = contains fact.labels "person"

abbrev in_priority_zone : AlertFact → Bool
in_priority_zone fact =
    contains fact.zones "porch" || contains fact.zones "entrance" || contains fact.zones "perimeter"

abbrev has_vehicle : AlertFact → Bool
has_vehicle fact =
    contains fact.labels "car"
    || contains fact.labels "truck"
    || contains fact.labels "bus"
    || contains fact.labels "motorcycle"
    || contains fact.labels "bicycle"

-- There is an object, and every object is known to be stationary.
abbrev is_still : List (Option Bool) → Bool
is_still [] = false
is_still (none ∷ objects) = false
is_still (some false ∷ objects) = false
is_still (some true ∷ []) = true
is_still (some true ∷ o ∷ objects) = is_still (o ∷ objects)

abbrev is_still_update : AlertFact → Bool
is_still_update fact = (fact.lifecycle == "updated") && is_still fact.object_stationary

-- The policy as a table.
abbrev pub community_outcome : AlertFact → Outcome
community_outcome fact =
    if has_person fact
    then (if in_priority_zone fact then escalate else send)
    else if is_still_update fact
    then suppress
    else if has_vehicle fact
    then send
    else no_action

still_lem :
    (objects : List (Option Bool)) → stationary_matches (some true) objects ≡ is_still objects
still_lem [] = refl
still_lem (none ∷ objects) = refl
still_lem (some false ∷ objects) = ground arith
still_lem (some true ∷ []) = refl
still_lem (some true ∷ o ∷ objects) = ground (arith, still_lem (o ∷ objects))

meets_cons :
    (a : List String) (w : String) (ws : List String)
    → meets a (w ∷ ws) ≡ (contains a w || meets a ws)
meets_cons [] w ws = refl
meets_cons (x ∷ xs) w ws = ground (arith, text_iff x w, text_iff w x, meets_cons xs w ws)

meets_one : (a : List String) (w : String) → meets a (w ∷ []) ≡ contains a w
meets_one [] w = refl
meets_one (x ∷ xs) w = ground (arith, text_iff x w, text_iff w x, meets_one xs w)

zones_lem :
    (fact : AlertFact)
    → meets fact.zones ("porch" ∷ "entrance" ∷ "perimeter" ∷ []) ≡ in_priority_zone fact
zones_lem fact =
    rw (meets_cons fact.zones "porch" _) (
      rw (meets_cons fact.zones "entrance" _)
        (rw (meets_one fact.zones "perimeter") (ground arith)))

vehicles_lem :
    (fact : AlertFact)
    → meets fact.labels ("car" ∷ "truck" ∷ "bus" ∷ "motorcycle" ∷ "bicycle" ∷ []) ≡ has_vehicle fact
vehicles_lem fact = rw (meets_cons fact.labels "car" _) (
    rw (meets_cons fact.labels "truck" _) (
      rw (meets_cons fact.labels "bus" _) (
        rw (meets_cons fact.labels "motorcycle" _)
          (rw (meets_one fact.labels "bicycle") (ground arith)))))

meets_none : (a : List String) → meets a [] ≡ false
meets_none [] = refl
meets_none (x ∷ xs) = meets_none xs

module _ (fact : AlertFact) where
  priority_zone-matched :
      (evaluate_rule person_priority_zone fact).matched ≡ (has_person fact && in_priority_zone fact)
  unfolding evaluate_rule
  priority_zone-matched =
      rw (meets_none fact.labels)
        (rw (meets_one fact.labels "person") (ground (arith, zones_lem fact)))

  person-matched : (evaluate_rule person_detected fact).matched ≡ has_person fact
  unfolding evaluate_rule
  person-matched = rw (meets_none fact.labels) (rw (meets_one fact.labels "person") (ground arith))

  still-matched :
      (evaluate_rule stationary_non_person_update fact).matched
      ≡ (is_still_update fact && not (has_person fact))
  unfolding evaluate_rule
  still-matched =
      rw (meets_one fact.labels "person") (ground (arith, still_lem fact.object_stationary))

  vehicle-matched : (evaluate_rule vehicle_detected fact).matched ≡ has_vehicle fact
  unfolding evaluate_rule
  vehicle-matched = rw (meets_none fact.labels) (ground (arith, vehicles_lem fact))

rules_in_order : sorted key_le community_policy.rules ≡ community_policy.rules
unfolding sorted community_policy
rules_in_order = refl

by_rules :
    (fact : AlertFact)
    → (walk community_policy fact [] community_policy.rules).outcome ≡ community_outcome fact
unfolding walk community_policy
by_rules fact = ground (
  arith,
  priority_zone-matched fact,
  person-matched fact,
  still-matched fact,
  vehicle-matched fact,
)

-- The outcome of the Community policy on every fact: a person in a priority zone (porch, entrance, perimeter) escalates, a
-- person elsewhere is sent; without a person an update with objects that are all known to be stationary is suppressed, any other fact
-- with a vehicle is sent, and nothing is done for the rest.
pub evaluate-community :
    (fact : AlertFact) → (evaluate community_policy fact).outcome ≡ community_outcome fact
unfolding evaluate
evaluate-community fact = rw rules_in_order (by_rules fact)
