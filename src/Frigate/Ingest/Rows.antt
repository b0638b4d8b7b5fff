-- ===== src/Frigate/Ingest/Rows.antt =====
-- adapters/frigate/pipeline.py: the rows that an ingest writes, from the message and its event.
use nanexus_event_intelligen.Prelude.{
  ℕ, ◌+◌, String, true, false, none, some, List, [], ◌∷◌, map, ◌==◌, string_eq, filter,
}
use nanexus_event_intelligen.Prelude.Texts.{append, join}
use nanexus_event_intelligen.Core.{Uuid, Platform, Draws}
use nanexus_event_intelligen.Core.Payload.{Fields, end, field, text, obj}
use nanexus_event_intelligen.Core.SourceAdapter.{
  EventKind, kind_text, lifecycle_text, ObjectItem, EvidenceItem, CanonicalSourceEvent,
}
use nanexus_event_intelligen.Core.Contracts.ProcessorJob.{
  EvidenceRef, snapshot, PrivacyPolicy, local_only, keep_none,
}
use nanexus_event_intelligen.Persistence.Models.{
  SourceEntityMap, ReviewItem, ObservedObject, Evidence, OutboxEvent,
}
use nanexus_event_intelligen.Persistence.Repositories.Observations.{NewObservation}
use nanexus_event_intelligen.Persistence.Repositories.RawMessages.{NewRawSourceMessage}
use nanexus_event_intelligen.Frigate.Payloads.{FrigatePlatform}
use nanexus_event_intelligen.Frigate.Replay.{FixtureMessage}
use nanexus_event_intelligen.Frigate.Normalizer.{hash}
use nanexus_event_intelligen.Frigate.Ingest.Dump.{dump_event}
use nanexus_event_intelligen.Processor.Service.{JobRequest}

-- `raw_dedupe_key`
unfoldable pub raw_key : Platform → FixtureMessage → String
raw_key platform message =
    join "" ("mqtt:" ∷ message.topic ∷ ":" ∷ hash platform message.payload ∷ [])

abbrev pub raw_data : Platform → Uuid → FixtureMessage → Fields → NewRawSourceMessage
raw_data platform source message safe_payload = record {
  source_instance_id = source;
  transport = "mqtt";
  channel = message.topic;
  schema_version = "frigate-0.17";
  dedupe_key = raw_key platform message;
  payload = safe_payload;
  payload_sha256 = hash platform message.payload;
  observed_at = message.observed_at;
  quarantined = false;
  quarantine_reason = none;
}

-- `replace(raw_data, quarantined=True, quarantine_reason=...)`
abbrev pub quarantine : NewRawSourceMessage → NewRawSourceMessage
quarantine raw = record raw {
  quarantined = true;
  quarantine_reason = some "invalid Frigate MQTT payload";
}

abbrev entity_type : EventKind → String
entity_type EventKind.review = "review_item"
entity_type kind = kind_text kind

abbrev pub mapping_row : Draws → Uuid → CanonicalSourceEvent → SourceEntityMap
mapping_row draws source event = record {
  id = draws.id 1;
  created_at = draws.now 0;
  source_instance_id = source;
  namespace = event.source_namespace;
  source_entity_id = event.source_entity_id;
  entity_type = entity_type event.event_kind;
  internal_entity_id = draws.id 2;
}

abbrev pub new_observation : Uuid → Uuid → CanonicalSourceEvent → NewObservation
new_observation source raw_message_id event = record {
  source_instance_id = source;
  source_namespace = event.source_namespace;
  source_entity_id = event.source_entity_id;
  source_revision = event.source_revision;
  dedupe_key = event.dedupe_key;
  schema_version = event.schema_version;
  event_kind = kind_text event.event_kind;
  lifecycle = lifecycle_text event.lifecycle;
  occurred_at = event.occurred_at;
  observed_at = event.observed_at;
  camera_id = event.camera_id;
  raw_message_id = some raw_message_id;
  start_at = event.start_at;
  end_at = event.end_at;
  partial_history = event.partial_history;
  labels = event.labels;
  zones = event.zones;
  extensions = event.extensions;
}

-- The evidence's and the objects' rows draw from place `n` on.
abbrev pub evidence_row : Draws → ℕ → Uuid → Uuid → EvidenceItem → Evidence
evidence_row draws n source observation_id item = record {
  id = draws.id n;
  created_at = draws.now n;
  source_instance_id = source;
  observation_id = some observation_id;
  media_type = item.media_type;
  source_ref = item.source_ref;
  captured_at = some item.captured_at;
  privacy_class = item.privacy_class;
  availability = item.availability;
  sha256 = none;
  expires_at = none;
  metadata_json = item.metadata_json;
}

abbrev pub object_row : Draws → ℕ → Uuid → ObjectItem → ObservedObject
object_row draws n observation_id item = record {
  id = draws.id n;
  created_at = draws.now n;
  observation_id = observation_id;
  object_key = item.object_id;
  label = item.label;
  sub_labels = item.sub_labels;
  confidence = item.confidence;
  stationary = item.stationary;
  track = end;
}

abbrev pub evidence_rows : Draws → ℕ → Uuid → Uuid → List EvidenceItem → List Evidence
evidence_rows draws n source observation_id [] = []
evidence_rows draws n source observation_id (item ∷ items) =
    evidence_row draws n source observation_id item
    ∷ evidence_rows draws (n + 2) source observation_id items

abbrev pub object_rows : Draws → ℕ → Uuid → List ObjectItem → List ObservedObject
object_rows draws n observation_id [] = []
object_rows draws n observation_id (item ∷ items) =
    object_row draws n observation_id item ∷ object_rows draws (n + 2) observation_id items

abbrev evidence_ref : Evidence → EvidenceRef
evidence_ref e = record {
  evidence_id = e.id;
  media_type = snapshot;
  privacy_class = e.privacy_class;
  availability = e.availability;
  purpose = "caption_tags";
}

abbrev local_policy : PrivacyPolicy
local_policy = record {
  policy_id = "local-only";
  policy_version = "1";
  route = local_only;
  external_network_allowed = false;
  retention = keep_none;
}

abbrev pub job_request : ReviewItem → CanonicalSourceEvent → List Evidence → JobRequest
job_request review event rows = record {
  review_item = review;
  evidence_refs = map evidence_ref (filter (λ (e : Evidence). e.media_type == "snapshot") rows);
  privacy_policy = local_policy;
  requested_at = some event.observed_at;
  trace_id = none;
}

-- `f"canonical:{event.dedupe_key}"`
abbrev pub outbox_key : CanonicalSourceEvent → String
outbox_key event = append "canonical:" event.dedupe_key

abbrev pub outbox_row :
    Platform → FrigatePlatform → Draws → Uuid → CanonicalSourceEvent → OutboxEvent
outbox_row platform frigate draws internal event = record {
  id = draws.id 4;
  created_at = draws.now 3;
  aggregate_type = kind_text event.event_kind;
  aggregate_id = internal;
  event_type = "canonical.observation.persisted";
  schema_version = event.schema_version;
  dedupe_key = outbox_key event;
  payload =
      field "internal_entity_id" (text (platform.show_uuid internal))
        (field "event" (obj (dump_event platform frigate event)) end);
  published_at = none;
  attempts = 0;
  last_error = none;
}
