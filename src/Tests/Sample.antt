-- ===== src/Tests/Sample.antt =====
-- Concrete values that the runs share: a platform whose UUIDs are written in unary, identifiers and
-- times, an observation and a decision about it.
use nanexus_event_intelligen.Prelude.{ℕ, zero, suc, ◌+◌, String, false, Option, none, some, [], ◌∷◌}
use nanexus_event_intelligen.Prelude.Texts.{append, text_length}
use nanexus_event_intelligen.Core.{Platform, Draws}
use nanexus_event_intelligen.Core.Payload.{Json, text, Fields, end, field, obj}
use nanexus_event_intelligen.Persistence.Models.{
  Observation, Decision, DecisionOutcome, ReviewItem, ReviewStatus,
}
use nanexus_event_intelligen.Persistence.Database.{Database, empty_database}
use nanexus_event_intelligen.Pipeline.Envelope.{StreamEnvelope}

abbrev pub unary : ℕ → String
unary zero = ""
unary (suc n) = append "i" (unary n)

abbrev text_of : Option Json → String
text_of (some (text s)) = s
text_of _ = "None"

abbrev pub platform : Platform
platform = record {
  parse_uuid = λ s. some (text_length s);
  show_uuid = unary;
  str = text_of;
  dumps = λ _. "{}";
  sha256 = λ s. s;
  isoformat = unary;
}

abbrev pub draws : Draws
draws = record { id = λ n. n + 10; now = λ n. n + 100 }

abbrev pub later_draws : Draws
later_draws = record { id = λ n. n + 50; now = λ n. n + 500 }

abbrev pub observation : Observation
observation = record {
  id = 3;
  created_at = 1;
  source_instance_id = 2;
  camera_id = none;
  raw_message_id = none;
  source_namespace = "events";
  source_entity_id = "e1";
  source_revision = "1";
  dedupe_key = "e1:new";
  schema_version = "1.0";
  event_kind = "object";
  lifecycle = "started";
  occurred_at = 1;
  observed_at = 1;
  processed_at = none;
  start_at = none;
  end_at = none;
  partial_history = false;
  labels = "person" ∷ [];
  zones = "porch" ∷ [];
  extensions = end;
}

abbrev pub with_observation : Database
with_observation = record empty_database { observations = observation ∷ [] }

abbrev pub event_fields : Fields
event_fields = field "source_instance_id" (text "ii") (field "dedupe_key" (text "e1:new") end)

abbrev pub persisted : StreamEnvelope
persisted = record {
  outbox_id = "i";
  dedupe_key = "k";
  aggregate_type = "observation";
  aggregate_id = "iii";
  event_type = "canonical.observation.persisted";
  schema_version = "1.0";
  payload = field "event" (obj event_fields) end;
}

abbrev pub decision : Decision
decision = record {
  id = 10;
  created_at = 100;
  subject_type = "observation";
  subject_id = 3;
  revision = 1;
  outcome = DecisionOutcome.escalate;
  policy_id = "community.basic-alerts";
  policy_version = "1.1.0";
  context_snapshot_id = none;
  supersedes_decision_id = none;
  confidence = none;
  reasons = "person" ∷ [];
  rule_trace = end;
  evidence_unavailable = false;
  degraded = false;
  degraded_reasons = [];
}

abbrev pub review : ReviewItem
review = record {
  id = 7;
  created_at = 1;
  camera_id = none;
  status = ReviewStatus.ended;
  severity = none;
  start_at = 1;
  end_at = none;
  labels = "person" ∷ [];
  zones = [];
  source_revision = "1";
}
