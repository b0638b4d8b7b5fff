-- ===== src/Notifications/Message.antt =====
-- notifications/handler.py: the message to deliver and the rows that record it.
use nanexus_event_intelligen.Prelude.{
  String, Option, none, some, [], ◌==◌, string_eq, if◌then◌else◌,
}
use nanexus_event_intelligen.Prelude.Texts.{join, truncate}
use nanexus_event_intelligen.Core.{value_error, lookup_error, Platform, Draws, Result, ok, err}
use nanexus_event_intelligen.Core.Payload.{Fields, end, field, text, obj, texts}
use nanexus_event_intelligen.Localization.{system_text}
use nanexus_event_intelligen.Persistence.Models.{
  Observation, Decision, Action, planned, Notification,
}
use nanexus_event_intelligen.Notifications.Models.{
  NotifiedOutcome, send, escalate, NotificationMessage, message_valid,
}
use nanexus_event_intelligen.Notifications.Request.{
  Request, stage_of, stage_text, outcome_text, key_of,
}

abbrev title_id : NotifiedOutcome → String
title_id send = "notification.title.send"
title_id escalate = "notification.title.escalate"

-- `text or fallback`
abbrev text_or : String → Option String → Option String
text_or t fallback = if t == "" then fallback else some t

abbrev source_of : Platform → Observation → Fields
source_of platform o = field "event_kind" (text o.event_kind) (
    field "lifecycle" (text o.lifecycle) (
      field "labels" (texts o.labels) (
        field "zones" (texts o.zones)
          (field "occurred_at" (text (platform.isoformat o.occurred_at)) end))))

-- `message.model_dump(mode="json")`
abbrev pub dump_message : Platform → NotificationMessage → Fields
dump_message platform m = field "schema_version" (text m.schema_version) (
    field "idempotency_key" (text m.idempotency_key) (
      field "decision_id" (text (platform.show_uuid m.decision_id)) (
        field "observation_id" (text (platform.show_uuid m.observation_id)) (
          field "outcome" (text (outcome_text m.outcome)) (
            field "stage" (text (stage_text m.stage)) (
              field "title" (text m.title)
                (field "body" (text m.body) (field "source" (obj m.source) end))))))))

abbrev message_of :
    Platform → Request → Decision → Observation → String → String → NotificationMessage
message_of platform r d o title body = record {
  schema_version = "1.0";
  idempotency_key = key_of platform r;
  decision_id = d.id;
  observation_id = o.id;
  outcome = r.outcome;
  stage = stage_of r.outcome;
  title = title;
  body = body;
  source = source_of platform o;
}

-- A message that its validators let through.
abbrev checked : NotificationMessage → Result NotificationMessage
checked message = if message_valid message then ok message else err (value_error "validation error")

abbrev with_texts :
    Platform
    → Request
    → Decision
    → Observation
    → Option String
    → Option String
    → Result NotificationMessage
with_texts platform r d o (some title) (some body) = checked (message_of platform r d o title body)
with_texts platform r d o _ _ = err (lookup_error "message id")

-- `NotificationMessage(...)`
unfoldable pub build_message :
    Platform → Request → Decision → Observation → Result NotificationMessage
build_message platform r d o =
    with_texts platform r d o (system_text (title_id r.outcome) [])
      (text_or (truncate 1000 (join "; " d.reasons)) (system_text "notification.body.fallback" []))

abbrev pub new_action : Platform → Draws → NotificationMessage → Action
new_action platform draws message = record {
  id = draws.id 0;
  created_at = draws.now 0;
  decision_id = message.decision_id;
  action_type = "community_webhook";
  idempotency_key = message.idempotency_key;
  status = planned;
  payload = dump_message platform message;
  attempts = 0;
  last_error = none;
}

abbrev pub new_notification : Draws → NotificationMessage → Notification
new_notification draws message = record {
  id = draws.id 1;
  created_at = draws.now 1;
  action_id = draws.id 0;
  channel = "community_webhook";
  stage = message.stage;
  idempotency_key = message.idempotency_key;
  external_message_id = none;
  delivery_status = planned;
}
