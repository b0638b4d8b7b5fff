-- ===== src/Alerts/Handler/Dump.antt =====
-- `ShadowEvaluation.model_dump(mode="json")`, field by field.
use nanexus_event_intelligen.Prelude.{String, List, [], ◌∷◌}
use nanexus_event_intelligen.Core.Payload.{
  Json, Items, nil, item, Fields, end, field, text, num, bool, arr, obj, texts, text_or_null,
}
use nanexus_event_intelligen.Alerts.Models.{
  Outcome, send, suppress, escalate, no_action, Checks, RuleTrace, ShadowEvaluation,
}

abbrev pub outcome_text : Outcome → String
outcome_text send = "send"
outcome_text suppress = "suppress"
outcome_text escalate = "escalate"
outcome_text no_action = "no_action"

dump_checks : Checks → Json
dump_checks c = obj (
    field "event_kind" (bool c.event_kind) (
      field "lifecycle" (bool c.lifecycle) (
        field "labels_any" (bool c.labels_any) (
          field "zones_any" (bool c.zones_any) (
            field "exclude_labels" (bool c.exclude_labels)
              (field "all_objects_stationary" (bool c.all_objects_stationary) end))))))

dump_trace : RuleTrace → Json
unfolding dump_checks
dump_trace t = obj (
    field "rule_id" (text t.rule_id) (
      field "priority" (num t.priority) (
        field "matched" (bool t.matched)
          (field "checks" (dump_checks t.checks) (field "explanation" (text t.explanation) end)))))

dump_traces : List RuleTrace → Items
unfolding dump_trace
dump_traces [] = nil
dump_traces (t ∷ ts) = item (dump_trace t) (dump_traces ts)

unfoldable pub dump_evaluation : ShadowEvaluation → Fields
unfolding dump_traces
dump_evaluation e = field "outcome" (text (outcome_text e.outcome)) (
    field "policy_id" (text e.policy_id) (
      field "policy_version" (text e.policy_version) (
        field "matched_rule_id" (text_or_null e.matched_rule_id)
          (field "reasons" (texts e.reasons) (field "trace" (arr (dump_traces e.trace)) end)))))
