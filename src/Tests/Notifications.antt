-- ===== src/Tests/Notifications.antt =====
-- Runs of notifications/handler.py.
use nanexus_event_intelligen.Prelude.{ℕ, ◌+◌, ◌≡◌, refl, false, some, [], ◌∷◌}
use nanexus_event_intelligen.Core.{ok, err, delivery_error}
use nanexus_event_intelligen.Core.Payload.{end, field, text}
use nanexus_event_intelligen.Persistence.Database.{Database, insert_action, insert_notification}
use nanexus_event_intelligen.Pipeline.Envelope.{StreamEnvelope}
use nanexus_event_intelligen.Notifications.Models.{NotificationAdapter, message_valid}
use nanexus_event_intelligen.Notifications.Request.{read_request}
use nanexus_event_intelligen.Notifications.Message.{build_message}
use nanexus_event_intelligen.Localization.{system_text}
use nanexus_event_intelligen.Prelude.Texts.{truncate, join}
use nanexus_event_intelligen.Notifications.Handler.{notify, begin, record_success}
use nanexus_event_intelligen.Notifications.Handler.AtMostOnce.{notify_twice}
use nanexus_event_intelligen.Tests.Sample.{platform, draws, later_draws, with_observation, decision}

abbrev decided : Database
decided = record with_observation { decisions = decision ∷ [] }

abbrev created : StreamEnvelope
created = record {
  outbox_id = "i";
  dedupe_key = "k";
  aggregate_type = "decision";
  aggregate_id = "iiiiiiiiii";
  event_type = "shadow.decision.created";
  schema_version = "1.0";
  payload =
      field "decision_id" (text "iiiiiiiiii")
        (field "observation_id" (text "iii") (field "outcome" (text "escalate") end));
}

-- Adapters that count the messages that they are given.
abbrev counting : NotificationAdapter ℕ
counting message n = (ok (record { external_message_id = some "r1" }), n + 1)

abbrev refusing : NotificationAdapter ℕ
refusing message n = (err (delivery_error "webhook rejected the notification" false), n + 1)

notify_twice_example :
    let p = notify platform counting draws created decided 0 in
    notify platform refusing later_draws created p.1 p.2 ≡ (ok tt, p.1, p.2)
unfolding notify read_request begin build_message message_valid system_text truncate join
    insert_action insert_notification record_success
notify_twice_example =
    notify_twice platform counting refusing draws later_draws created decided 0 refl
