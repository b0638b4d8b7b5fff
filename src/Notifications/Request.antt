-- ===== src/Notifications/Request.antt =====
-- notifications/handler.py: what a message of the stream asks for, checked before the transaction.
use nanexus_event_intelligen.Prelude.{
  String, not, Option, none, some, ◌==◌, string_eq, if◌then◌else◌,
}
use nanexus_event_intelligen.Prelude.Texts.{append}
use nanexus_event_intelligen.Core.{Uuid, value_error, type_error, Platform, Result, ok, err}
use nanexus_event_intelligen.Core.Payload.{Json, Fields, text, obj, arr, get}
use nanexus_event_intelligen.Persistence.Models.{Stage, initial, enhanced, resolved, escalated}
use nanexus_event_intelligen.Pipeline.Envelope.{StreamEnvelope}
use nanexus_event_intelligen.Notifications.Models.{NotifiedOutcome, send, escalate}

-- The event that a message of the stream asks for.
pub record Request : Type 0 where
  pub outcome : NotifiedOutcome
  pub decision_id : Uuid
  pub observation_id : Uuid

-- `outcome_value not in {"send", "escalate"}`; a list or an object has no hash.
abbrev pub wanted_outcome : Option Json → Result (Option NotifiedOutcome)
wanted_outcome (some (text t)) =
    ok (if t == "send" then some send else if t == "escalate" then some escalate else none)
wanted_outcome (some (obj fs)) = err (type_error "unhashable type: 'dict'")
wanted_outcome (some (arr items)) = err (type_error "unhashable type: 'list'")
wanted_outcome _ = ok none

abbrev with_ids : NotifiedOutcome → Option Uuid → Option Uuid → Result (Option Request)
with_ids outcome (some d) (some o) =
    ok (some (record { outcome = outcome; decision_id = d; observation_id = o }))
with_ids outcome _ _ = err (value_error "badly formed hexadecimal UUID string")

abbrev with_outcome : Platform → Fields → Result (Option NotifiedOutcome) → Result (Option Request)
with_outcome platform payload (err e) = err e
with_outcome platform payload (ok none) = ok none
with_outcome platform payload (ok (some outcome)) =
    with_ids outcome (platform.parse_uuid (platform.str (get "decision_id" payload)))
      (platform.parse_uuid (platform.str (get "observation_id" payload)))

-- The checks before the transaction: none where the event is not one to notify of.
unfoldable pub read_request : Platform → StreamEnvelope → Result (Option Request)
read_request platform envelope =
    if not (envelope.event_type == "shadow.decision.created")
    then ok none
    else with_outcome platform envelope.payload (wanted_outcome (get "outcome" envelope.payload))

abbrev pub stage_of : NotifiedOutcome → Stage
stage_of send = initial
stage_of escalate = escalated

abbrev pub stage_text : Stage → String
stage_text initial = "initial"
stage_text enhanced = "enhanced"
stage_text resolved = "resolved"
stage_text escalated = "escalated"

abbrev pub outcome_text : NotifiedOutcome → String
outcome_text send = "send"
outcome_text escalate = "escalate"

-- `f"community-webhook:{decision_id}:{stage}"`
abbrev pub key_of : Platform → Request → String
key_of platform r =
    append "community-webhook:"
      (append (platform.show_uuid r.decision_id) (append ":" (stage_text (stage_of r.outcome))))
