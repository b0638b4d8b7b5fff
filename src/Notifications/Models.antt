-- ===== src/Notifications/Models.antt =====
-- notifications/models.py: the message, the result of a delivery, and the constraints of the fields.
use nanexus_event_intelligen.Prelude.{ℕ, String, Bool, ◌&&◌, Option, leb}
use nanexus_event_intelligen.Prelude.Texts.{text_length}
use nanexus_event_intelligen.Core.{Uuid, Result}
use nanexus_event_intelligen.Core.Payload.{Fields}
use nanexus_event_intelligen.Persistence.Models.{Stage}

pub data NotifiedOutcome : Type 0 where
  send escalate : NotifiedOutcome

pub record NotificationMessage : Type 0 where
  pub schema_version : String
  pub idempotency_key : String
  pub decision_id : Uuid
  pub observation_id : Uuid
  pub outcome : NotifiedOutcome
  pub stage : Stage
  pub title : String
  pub body : String
  pub source : Fields

pub record DeliveryResult : Type 0 where
  pub external_message_id : Option String

-- `NotificationAdapter.deliver`, with the state of what is outside.
abbrev pub NotificationAdapter : Type 0 → Type 0
NotificationAdapter N = NotificationMessage → N → Result DeliveryResult × N

abbrev length_between : ℕ → ℕ → String → Bool
length_between a b s = leb a (text_length s) && leb (text_length s) b

-- The constraints on the lengths of the texts.
unfoldable pub message_valid : NotificationMessage → Bool
message_valid m =
    length_between 1 512 m.idempotency_key
    && length_between 1 200 m.title
    && length_between 1 1000 m.body
