-- ===== src/Alerts/Policy.antt =====
-- alerts/policy.py: the rules of the Community policy.
use nanexus_event_intelligen.Prelude.{String, true, none, some, [], ◌∷◌, or_else}
use nanexus_event_intelligen.Localization.{system_text}
use nanexus_event_intelligen.Alerts.Models.{
  send, suppress, escalate, RuleMatch, ShadowRule, ShadowPolicy,
}

-- A `RuleMatch` with its defaults.
abbrev any_event : RuleMatch
any_event = record {
  event_kinds = [];
  lifecycles = [];
  labels_any = [];
  zones_any = [];
  require_all_objects_stationary = none;
  exclude_labels = [];
}

unfoldable pub describe : String → String
describe message_id = or_else (system_text message_id []) ""

abbrev pub person_priority_zone : ShadowRule
person_priority_zone = record {
  rule_id = "person.priority-zone";
  priority = 10;
  outcome = escalate;
  description = describe "policy.person_priority_zone";
  match = record any_event {
    labels_any = "person" ∷ [];
    zones_any = "porch" ∷ "entrance" ∷ "perimeter" ∷ [];
  };
}

abbrev pub person_detected : ShadowRule
person_detected = record {
  rule_id = "person.detected";
  priority = 20;
  outcome = send;
  description = describe "policy.person_detected";
  match = record any_event { labels_any = "person" ∷ [] };
}

abbrev pub stationary_non_person_update : ShadowRule
stationary_non_person_update = record {
  rule_id = "stationary.non-person-update";
  priority = 30;
  outcome = suppress;
  description = describe "policy.stationary_non_person_update";
  match = record any_event {
    lifecycles = "updated" ∷ [];
    require_all_objects_stationary = some true;
    exclude_labels = "person" ∷ [];
  };
}

abbrev pub vehicle_detected : ShadowRule
vehicle_detected = record {
  rule_id = "vehicle.detected";
  priority = 40;
  outcome = send;
  description = describe "policy.vehicle_detected";
  match = record any_event { labels_any = "car" ∷ "truck" ∷ "bus" ∷ "motorcycle" ∷ "bicycle" ∷ [] };
}

unfoldable pub community_policy : ShadowPolicy
unfolding describe
community_policy = record {
  policy_id = "community.basic-alerts";
  version = "1.1.0";
  rules =
      person_priority_zone ∷ person_detected ∷ stationary_non_person_update ∷ vehicle_detected ∷ [];
}
