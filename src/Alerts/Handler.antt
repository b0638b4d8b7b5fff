-- ===== src/Alerts/Handler.antt =====
-- alerts/handler.py: the consumer that records shadow decisions.
pub mod Dump
pub mod Creates
pub mod Idempotence
use nanexus_event_intelligen.Prelude.{
  ℕ, ◌+◌, max, String, Bool, true, false, not, ◌&&◌, Option, none, some, List, [], ◌∷◌, map, eqb,
  ◌==◌, string_eq, find?, filter, is_some, if◌then◌else◌,
}
use nanexus_event_intelligen.Prelude.Texts.{append}
use nanexus_event_intelligen.Core.{Uuid, value_error, lookup_error, Platform, Draws}
use nanexus_event_intelligen.Core.Payload.{Fields, end, field, text, bool, get, as_dict, as_text}
use nanexus_event_intelligen.Persistence.Models.{
  Observation, ObservedObject, Decision, DecisionOutcome, OutboxEvent,
}
use nanexus_event_intelligen.Persistence.Database.{
  Database, Tx, pure, gets, or_raise, insert_decision, insert_outbox, ◌>>=◌, ◌>>◌,
}
use nanexus_event_intelligen.Pipeline.Envelope.{StreamEnvelope}
use nanexus_event_intelligen.Alerts.Models.{
  Outcome, send, suppress, escalate, no_action, ShadowPolicy, AlertFact, ShadowEvaluation,
}
use nanexus_event_intelligen.Alerts.Evaluator.{evaluate}
use Dump.{outcome_text, dump_evaluation}

abbrev pub to_column : Outcome → DecisionOutcome
to_column send = DecisionOutcome.send
to_column suppress = DecisionOutcome.suppress
to_column escalate = DecisionOutcome.escalate
to_column no_action = DecisionOutcome.no_action

-- `select(Observation).where(source_instance_id == source, dedupe_key == key)`
abbrev pub find_observation : Uuid → String → Database → Option Observation
find_observation source key db =
    find? (λ o. eqb o.source_instance_id source && o.dedupe_key == key) db.observations

abbrev pub is_decision_for : ShadowPolicy → Uuid → Decision → Bool
is_decision_for policy observation_id d =
    d.subject_type == "observation"
    && eqb d.subject_id observation_id
    && d.policy_id == policy.policy_id
    && d.policy_version == policy.version

abbrev pub stationary_of : Uuid → Database → List (Option Bool)
stationary_of observation_id db =
    map (λ (o : ObservedObject). o.stationary)
      (filter (λ o. eqb o.observation_id observation_id) db.observed_objects)

-- `coalesce(max(revision), 0)` over the decisions about the subject
unfoldable pub latest_revision : Uuid → List Decision → ℕ
latest_revision subject [] = 0
latest_revision subject (d ∷ ds) =
    let rest = latest_revision subject ds in
    if eqb d.subject_id subject then max d.revision rest else rest

abbrev pub fact_of : Observation → Database → AlertFact
fact_of o db = record {
  observation_id = o.id;
  event_kind = o.event_kind;
  lifecycle = o.lifecycle;
  occurred_at = o.occurred_at;
  labels = o.labels;
  zones = o.zones;
  object_stationary = stationary_of o.id db;
}

abbrev pub decision_row : Draws → Observation → ShadowEvaluation → ℕ → Decision
decision_row draws o result revision = record {
  id = draws.id 0;
  created_at = draws.now 0;
  subject_type = "observation";
  subject_id = o.id;
  revision = revision;
  outcome = to_column result.outcome;
  policy_id = result.policy_id;
  policy_version = result.policy_version;
  context_snapshot_id = none;
  supersedes_decision_id = none;
  confidence = none;
  reasons = result.reasons;
  rule_trace = dump_evaluation result;
  evidence_unavailable = false;
  degraded = false;
  degraded_reasons = [];
}

-- `f"shadow:{observation.id}:{result.policy_id}:{result.policy_version}"`
abbrev pub shadow_key : Platform → Observation → ShadowEvaluation → String
shadow_key platform o result = append "shadow:" (
    append (platform.show_uuid o.id)
      (append ":" (append result.policy_id (append ":" result.policy_version))))

abbrev pub outbox_row : Platform → Draws → Observation → ShadowEvaluation → OutboxEvent
outbox_row platform draws o result = record {
  id = draws.id 1;
  created_at = draws.now 1;
  aggregate_type = "decision";
  aggregate_id = draws.id 0;
  event_type = "shadow.decision.created";
  schema_version = "1.0";
  dedupe_key = shadow_key platform o result;
  payload = field "decision_id" (text (platform.show_uuid (draws.id 0))) (
      field "observation_id" (text (platform.show_uuid o.id)) (
        field "outcome" (text (outcome_text result.outcome))
          (field "shadow" (bool true) (field "production_side_effects" (bool false) end))));
  published_at = none;
  attempts = 0;
  last_error = none;
}

-- The transaction from the point where the observation is locked.
unfoldable pub decide : Platform → ShadowPolicy → Draws → Observation → Tx (Unit {0})
decide platform policy draws o = do
  existing ← gets (λ db. find? (is_decision_for policy o.id) db.decisions)
  if is_some existing then pure tt else do
    result ← gets (λ db. evaluate policy (fact_of o db))
    revision ← gets (λ db. latest_revision o.id db.decisions + 1)
    insert_decision (decision_row draws o result revision)
    insert_outbox (outbox_row platform draws o result)

-- The checks before the transaction, and the transaction. The body of the transaction reads the
-- identity first, so the checks may stand inside it.
unfoldable pub handle : Platform → ShadowPolicy → Draws → StreamEnvelope → Tx (Unit {0})
handle platform policy draws envelope =
    if not (envelope.event_type == "canonical.observation.persisted") then pure tt else do
      event ←
          or_raise (as_dict (get "event" envelope.payload))
            (value_error "canonical event payload is missing")
      source_id ←
          or_raise (as_text (get "source_instance_id" event))
            (value_error "canonical event identity is missing")
      dedupe_key ←
          or_raise (as_text (get "dedupe_key" event))
            (value_error "canonical event identity is missing")
      source ←
          or_raise (platform.parse_uuid source_id)
            (value_error "badly formed hexadecimal UUID string")
      found ← gets (find_observation source dedupe_key)
      o ← or_raise found (lookup_error "canonical observation was not found")
      decide platform policy draws o
