-- ===== src/Frigate/Ingest.antt =====
-- adapters/frigate/pipeline.py: the ingest of one message of Frigate in one transaction. The rows draw
-- their identifiers and times from distinct places of `Draws`.
pub mod Dump
pub mod History
pub mod Reviews
pub mod Rows
pub mod Frame
pub mod Persisted
pub mod Cases
pub mod Outcome
pub mod Failure
pub mod Idempotence
pub mod Clean
pub mod Delivery
pub mod Bundle
use nanexus_event_intelligen.Prelude.{
  ℕ, suc, ◌+◌, String, Bool, true, false, Option, none, some, List, [], ◌∷◌, eqb, find?,
  update_where, if◌then◌else◌,
}
use nanexus_event_intelligen.Core.{
  Uuid, Result, ok, err, type_error, frigate_protocol_error, Platform, Draws,
}
use nanexus_event_intelligen.Core.Payload.{Json, Fields, obj, as_dict}
use nanexus_event_intelligen.Core.SourceAdapter.{EventKind, Lifecycle, CanonicalSourceEvent}
use nanexus_event_intelligen.Persistence.Models.{
  RawSourceMessage, Observation, SourceEntityMap, ReviewItem, Evidence, ObservedObject,
}
use nanexus_event_intelligen.Persistence.Database.{
  Database, Tx, pure, raise, gets, modify, ◌>>=◌, ◌>>◌, insert_evidence, insert_observed_object,
  insert_review_item, insert_review_observation,
}
use nanexus_event_intelligen.Persistence.Repositories.RawMessages
use nanexus_event_intelligen.Persistence.Repositories.Observations
use nanexus_event_intelligen.Persistence.Repositories.Checkpoints
use nanexus_event_intelligen.Persistence.Repositories.OutboxEvents
use nanexus_event_intelligen.Persistence.Repositories.EntityMaps.{resolve_or_create_entity_mapping}
use nanexus_event_intelligen.Frigate.Redaction.{redact}
use nanexus_event_intelligen.Frigate.Payloads.{FrigatePlatform}
use nanexus_event_intelligen.Frigate.Replay.{FixtureMessage}
use nanexus_event_intelligen.Frigate.Normalizer.{Incoming, normalize_frigate_message}
use nanexus_event_intelligen.Frigate.Normalizer.Branches.{ends_with}
use nanexus_event_intelligen.Processor.Service.{create_processor_job}
use Rows.{
  raw_key, raw_data, quarantine, mapping_row, new_observation, evidence_rows, object_rows,
  job_request, outbox_row,
}
use Reviews.{new_review, revised}
use History.{with_history}

pub data IngestStatus : Type 0 where
  persisted duplicate quarantined ignored : IngestStatus

pub record IngestResult : Type 0 where
  pub status : IngestStatus
  pub cursor : String
  pub observation_id : Option Uuid

-- `FrigateIngestPipeline`, without its session.
pub record FrigateIngestPipeline : Type 0 where
  pub source_instance_id : Uuid
  pub camera_ids : List (String × Uuid)

-- The rows of evidence and of objects.
abbrev pub add_evidence : List Evidence → Tx (Unit {0})
add_evidence [] = pure tt
add_evidence (row ∷ rows) = do insert_evidence row; add_evidence rows

abbrev pub add_objects : List ObservedObject → Tx (Unit {0})
add_objects [] = pure tt
add_objects (row ∷ rows) = do insert_observed_object row; add_objects rows

-- The review item that is there, revised, or a new one.
abbrev pub has_id : Uuid → ReviewItem → Bool
has_id id r = eqb r.id id

abbrev pub upsert_review : Draws → Uuid → CanonicalSourceEvent → Option ReviewItem → Tx ReviewItem
upsert_review draws id event (some review) = do
  modify λ db. record db { review_items = update_where (has_id id) (revised event) db.review_items }
  pure (revised event review)
upsert_review draws id event none = do
  insert_review_item (new_review draws id event)
  pure (new_review draws id event)

abbrev job_draws : Draws → Draws
job_draws draws = record { id = λ n. draws.id (n + 6); now = λ n. draws.now (n + 5) }

module _ (platform : Platform) (frigate : FrigatePlatform) where
  -- `if event.lifecycle == "ended"`: a job for the ended review.
  abbrev pub request_job :
      Draws → CanonicalSourceEvent → ReviewItem → List Evidence → Lifecycle → Tx (Unit {0})
  request_job draws event review rows Lifecycle.ended = do
    create_processor_job platform (job_draws draws) (job_request review event rows)
    pure tt
  request_job draws event review rows other = pure tt

  -- `if event.event_kind == "review"`
  abbrev pub record_review :
      Draws → CanonicalSourceEvent → Uuid → Uuid → List Evidence → EventKind → Tx (Unit {0})
  record_review draws event internal observation_id rows EventKind.review = do
    found ← gets λ db. find? (has_id internal) db.review_items
    review ← upsert_review draws internal event found
    insert_review_observation
        (record { review_item_id = review.id; observation_id = observation_id })
    request_job draws event review rows event.lifecycle
  record_review draws event internal observation_id rows other = pure tt

  -- The rows that go with an observation.
  abbrev pub attach : Draws → Uuid → CanonicalSourceEvent → Uuid → Uuid → Tx (Unit {0})
  attach draws source event internal observation_id = do
    add_evidence (evidence_rows draws 8 source observation_id event.evidence)
    add_objects (object_rows draws 9 observation_id event.objects)
    record_review draws event internal observation_id
        (evidence_rows draws 8 source observation_id event.evidence) event.event_kind

  module _ (draws : Draws) (pipeline : FrigateIngestPipeline) (message : FixtureMessage)
      (stream cursor : String) where
    -- The checkpoint, and the result.
    unfoldable pub finish : IngestStatus → Option Uuid → Tx IngestResult
    finish status observation_id = do
      Checkpoints.advance (draws.id 5) (draws.now 4) pipeline.source_instance_id stream cursor
      pure (record { status = status; cursor = cursor; observation_id = observation_id })

    -- From the second half of `ingest`: the event with its history, after the raw message.
    abbrev pub store_event : CanonicalSourceEvent → Uuid → Tx IngestResult
    store_event event raw_message_id = do
      mapping ←
          resolve_or_create_entity_mapping (mapping_row draws pipeline.source_instance_id event)
      observation ←
          Observations.add (draws.id 3) (draws.now 1)
            (new_observation pipeline.source_instance_id raw_message_id event)
      attach draws pipeline.source_instance_id event mapping.internal_entity_id observation.id
      OutboxEvents.add (outbox_row platform frigate draws mapping.internal_entity_id event)
      finish persisted (some observation.id)

    abbrev pub persist : Fields → CanonicalSourceEvent → Tx IngestResult
    persist safe_payload event = do
      raw ←
          RawMessages.add (draws.id 0)
            (raw_data platform pipeline.source_instance_id message safe_payload)
      history ← gets (
          Observations.list_for_entity pipeline.source_instance_id event.source_namespace
            event.source_entity_id)
      store_event (with_history history event) raw.id

    abbrev pub unless_observed :
        Fields → CanonicalSourceEvent → Option Observation → Tx IngestResult
    unless_observed safe_payload event (some existing) = finish duplicate none
    unless_observed safe_payload event none = persist safe_payload event

    abbrev pub by_event : Fields → Result CanonicalSourceEvent → Tx IngestResult
    by_event safe_payload (ok event) = do
      existing ← gets (Observations.get_by_dedupe_key pipeline.source_instance_id event.dedupe_key)
      unless_observed safe_payload event existing
    by_event safe_payload (err (frigate_protocol_error reason)) = do
      RawMessages.add (draws.id 0)
          (quarantine (raw_data platform pipeline.source_instance_id message safe_payload))
      finish quarantined none
    by_event safe_payload (err e) = raise e

    abbrev pub incoming : Fields → Incoming
    incoming safe_payload = record {
      topic = message.topic;
      payload = safe_payload;
      source_instance_id = pipeline.source_instance_id;
      camera_ids = pipeline.camera_ids;
      observed_at = message.observed_at;
    }

    -- An availability message is kept and nothing else.
    abbrev pub ignore : Fields → Tx IngestResult
    ignore safe_payload = do
      RawMessages.add (draws.id 0)
          (raw_data platform pipeline.source_instance_id message safe_payload)
      finish ignored none

    abbrev pub classify : Fields → Tx IngestResult
    classify safe_payload =
        if ends_with "/available" message.topic
        then ignore safe_payload
        else by_event safe_payload
            (normalize_frigate_message platform frigate (incoming safe_payload))

    abbrev pub safely : Option Fields → Tx IngestResult
    safely none = raise (type_error "redacted MQTT payload must remain an object")
    safely (some safe_payload) = classify safe_payload

    abbrev pub safe_payload_of : Option Fields
    safe_payload_of = as_dict (some (redact frigate.lower frigate.substitute (obj message.payload)))

    abbrev pub unless_recorded : Option RawSourceMessage → Tx IngestResult
    unless_recorded (some existing) = finish duplicate none
    unless_recorded none = safely safe_payload_of

    unfoldable pub ingest : Tx IngestResult
    ingest = do
      existing ←
          gets
            (RawMessages.get_by_dedupe_key pipeline.source_instance_id (raw_key platform message))
      unless_recorded existing
