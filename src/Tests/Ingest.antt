-- ===== src/Tests/Ingest.antt =====
-- Runs of adapters/frigate/pipeline.py.
use nanexus_event_intelligen.Prelude.{
  inl, ◌≡◌, refl, false, none, some, [], ◌∷◌, All, ltb, eqb, not, length, if◌then◌else◌,
}
use nanexus_event_intelligen.Prelude.Sorting.{sorted, insert}
use nanexus_event_intelligen.Prelude.Texts.{join, truncate}
use nanexus_event_intelligen.Core.{Result, ok, err, value_error}
use nanexus_event_intelligen.Core.Payload.{text, field, end}
use nanexus_event_intelligen.Core.Contracts.ProcessorJob.{contract_valid, output_types_unique}
use nanexus_event_intelligen.Persistence.Models.{IngestCheckpoint}
use nanexus_event_intelligen.Persistence.Database.{
  Database, empty_database, transact, insert_evidence, insert_observed_object, insert_review_item,
  insert_review_observation, insert_entity_map, insert_job, insert_checkpoint, insert_observation,
  insert_outbox, insert_raw_message,
}
use nanexus_event_intelligen.Persistence.Repositories.RawMessages
use nanexus_event_intelligen.Persistence.Repositories.Observations
use nanexus_event_intelligen.Persistence.Repositories.OutboxEvents
use nanexus_event_intelligen.Persistence.Repositories.Checkpoints
use nanexus_event_intelligen.Persistence.Repositories.EntityMaps
use nanexus_event_intelligen.Persistence.Repositories.EntityMaps.{resolve_or_create_entity_mapping}
use nanexus_event_intelligen.Processor.Service.{create_processor_job, processor_job_idempotency_key}
use nanexus_event_intelligen.Frigate.Redaction.{redact}
use nanexus_event_intelligen.Frigate.Payloads.{FrigatePlatform, LifecycleType, ReviewMessage}
use nanexus_event_intelligen.Frigate.Replay.{FixtureMessage}
use nanexus_event_intelligen.Frigate.Normalizer.{Incoming, event_of, normalize_frigate_message}
use nanexus_event_intelligen.Frigate.Normalizer.Branches.{ends_with, distinct_texts, of_review}
use nanexus_event_intelligen.Frigate.Ingest.{
  IngestStatus, duplicate, IngestResult, FrigateIngestPipeline, finish, ingest,
}
use nanexus_event_intelligen.Frigate.Ingest.History.{with_history}
use nanexus_event_intelligen.Frigate.Ingest.Rows.{raw_key}
use nanexus_event_intelligen.Frigate.Ingest.Outcome.{
  IsAccounted, ingest-IsAccounted, ingest-IsAdvanced,
}
use nanexus_event_intelligen.Frigate.Ingest.Idempotence.{ingest_twice}
use nanexus_event_intelligen.Frigate.Ingest.Clean.{HasCleanPayload, ingest-AllClean}
use nanexus_event_intelligen.Frigate.Ingest.Delivery.{IsDelivered, ingest-IsDelivered}
use nanexus_event_intelligen.Frigate.Ingest.Failure.{ingest_raises}
use nanexus_event_intelligen.Core.SourceAdapter.{CanonicalSourceEvent}
use nanexus_event_intelligen.Frigate.Http.Media.{event_id_of_observation}
use nanexus_event_intelligen.Frigate.Http.Media.Links.{event_id-observation_of}
use nanexus_event_intelligen.Frigate.Ingest.Persisted.{observation_of}
use nanexus_event_intelligen.Tests.Sample.{platform, unary, draws, later_draws}

abbrev ended_review : ReviewMessage
ended_review = record {
  type = LifecycleType.end;
  before = none;
  after = record {
    id = "r1";
    camera = "porch";
    start_time = 5;
    end_time = some 9;
    severity = some "alert";
    thumb_path = none;
    «data» = record {
      detections = "e1" ∷ [];
      objects = "person" ∷ "car" ∷ "person" ∷ [];
      sub_labels = [];
      zones = [];
      audio = [];
      thumb_time = none;
    };
  };
}

-- A platform whose times are at most 1000, with one review that every payload is.
abbrev frigate : ReviewMessage → FrigatePlatform
frigate review = record {
  is_true = λ t. not (eqb t 0);
  fromtimestamp = λ t. if ltb t 1000 then ok t else err (value_error "year is out of range");
  fixed6 = unary;
  uuid5 = λ _ _. 77;
  lower = λ s. s;
  substitute = λ s. s;
  review_message = λ _. some review;
  object_message = λ _. none;
  tracked_object_update = λ _. none;
  json_time = unary;
}

abbrev pipeline : FrigateIngestPipeline
pipeline = record { source_instance_id = 2; camera_ids = ("porch", 4) ∷ [] }

abbrev message : FixtureMessage
message = record {
  topic = "frigate/reviews";
  observed_at = 12;
  qos = 0;
  retain = false;
  payload_sha256 = "{}";
  payload = field "type" (text "end") (field "token" (text "t") end);
}

abbrev result_of : {A : Type 0} → A → Result (A × Database) → A
result_of a (ok (b, db)) = b
result_of a (err e) = a

abbrev tables_of : {A : Type 0} → Result (A × Database) → Database
tables_of (ok (b, db)) = db
tables_of (err e) = empty_database

abbrev nothing : IngestResult
nothing = record { status = duplicate; cursor = ""; observation_id = none }

unfoldable run : Result (IngestResult × Database)
run = ingest platform (frigate ended_review) draws pipeline message "live" "7" empty_database

unfoldable first_result : IngestResult
unfolding run
first_result = result_of nothing run

unfoldable after_first : Database
unfolding run
after_first = tables_of run

run-eq :
    ingest platform (frigate ended_review) draws pipeline message "live" "7" empty_database
    ≡ ok (first_result, after_first)
unfolding run first_result after_first ingest finish raw_key join truncate redact
    normalize_frigate_message ends_with distinct_texts sorted insert with_history RawMessages.add
    Observations.add OutboxEvents.add EntityMaps.add Checkpoints.advance
    resolve_or_create_entity_mapping insert_evidence insert_observed_object insert_review_item
    insert_review_observation insert_entity_map insert_job insert_checkpoint insert_observation
    insert_outbox insert_raw_message create_processor_job processor_job_idempotency_key
    contract_valid output_types_unique
run-eq = refl

run-persists :
    (first_result.status ≡ IngestStatus.persisted) × (length after_first.processor_jobs ≡ 1)
unfolding run first_result after_first ingest finish raw_key join truncate redact
    normalize_frigate_message ends_with distinct_texts sorted insert with_history RawMessages.add
    Observations.add OutboxEvents.add EntityMaps.add Checkpoints.advance
    resolve_or_create_entity_mapping insert_evidence insert_observed_object insert_review_item
    insert_review_observation insert_entity_map insert_job insert_checkpoint insert_observation
    insert_outbox insert_raw_message create_processor_job processor_job_idempotency_key
    contract_valid output_types_unique
run-persists = (refl, refl)

ingest-IsAccounted_example : IsAccounted first_result empty_database after_first
ingest-IsAccounted_example =
    ingest-IsAccounted platform (frigate ended_review) draws pipeline message "live" "7"
      empty_database after_first first_result run-eq

ingest-IsAdvanced_example :
    (c : IngestCheckpoint) × (Checkpoints.get 2 "live" after_first ≡ some c) × (c.cursor ≡ "7")
ingest-IsAdvanced_example =
    ingest-IsAdvanced platform (frigate ended_review) draws pipeline message "live" "7"
      empty_database after_first first_result run-eq

ingest_twice_example :
    ingest platform (frigate ended_review) later_draws pipeline message "replay" "0" after_first
    ≡ finish platform
        (frigate ended_review)
        later_draws
        pipeline
        message
        "replay"
        "0"
        duplicate
        none
        after_first
ingest_twice_example =
    ingest_twice platform (frigate ended_review) pipeline message draws later_draws "live" "replay"
      "7" "0" empty_database after_first first_result run-eq

ingest-AllClean_example :
    All (HasCleanPayload platform (frigate ended_review)) after_first.raw_source_messages
ingest-AllClean_example =
    ingest-AllClean platform (frigate ended_review) draws pipeline message "live" "7" empty_database
      after_first first_result tt run-eq

ingest-IsDelivered_example :
    IsDelivered platform
      (frigate ended_review)
      draws
      pipeline
      message
      "live"
      "7"
      900
      empty_database
      after_first
ingest-IsDelivered_example =
    ingest-IsDelivered platform (frigate ended_review) draws pipeline message "live" "7" 900
      empty_database after_first first_result refl run-persists.0 run-eq

-- A review that ends at a time that the platform refuses.
abbrev far_review : ReviewMessage
far_review = record ended_review { after = record ended_review.after { end_time = some 2000 } }

ingest_raises_example :
    transact (ingest platform (frigate far_review) draws pipeline message "live" "7") empty_database
    ≡ (err (value_error "year is out of range"), empty_database)
unfolding redact ends_with distinct_texts sorted insert join truncate normalize_frigate_message
ingest_raises_example =
    ingest_raises platform (frigate far_review) draws pipeline message "live" "7" empty_database
      (field "type" (text "end") (field "token" (text "[REDACTED]") end)) 2000
      "year is out of range" refl refl refl (inl (far_review, refl, refl, refl)) refl refl

abbrev incoming_review : Incoming
incoming_review = record {
  topic = "frigate/reviews";
  payload = end;
  source_instance_id = 2;
  camera_ids = [];
  observed_at = 12;
}

abbrev event_of_review : CanonicalSourceEvent
event_of_review =
    event_of platform (frigate ended_review) incoming_review
      (of_review (frigate ended_review) ended_review) 9 (some 5) (some 9)

event_id-observation_of_example :
    event_id_of_observation (
      observation_of platform
        (frigate ended_review)
        draws
        pipeline
        message
        "live"
        "7"
        1
        (with_history [] event_of_review))
    ≡ some "e1"
unfolding normalize_frigate_message ends_with distinct_texts sorted insert join truncate
event_id-observation_of_example =
    event_id-observation_of platform (frigate ended_review) draws pipeline message "live" "7"
      incoming_review event_of_review ended_review [] 1 "e1" [] refl refl refl refl
