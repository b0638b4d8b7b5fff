-- ===== src/Frigate/Ingest/Frame.antt =====
-- adapters/frigate/pipeline.py: the tables that the steps between the observation's row and the outbox
-- row leave alone.
use nanexus_event_intelligen.Prelude.{
  String, ap, arith, Bool, true, false, Option, none, some, List, [], ◌∷◌,
}
use nanexus_event_intelligen.Core.{Uuid, Time, Platform, Draws}
use nanexus_event_intelligen.Core.SourceAdapter.{EventKind, Lifecycle, CanonicalSourceEvent}
use nanexus_event_intelligen.Persistence.Models.{
  SourceEntityMap, ReviewItem, ReviewObservation, Evidence, ObservedObject, OutboxEvent,
  Observation, RawSourceMessage, ProcessorJob, IngestCheckpoint,
}
use nanexus_event_intelligen.Persistence.Database.{
  Database, pure, gets, insert_evidence, insert_observed_object, insert_review_item,
  insert_review_observation, insert_entity_map, insert_job, insert_checkpoint, same_evidence,
  same_observed_object, same_review_item, same_review_observation, same_entity_map, same_job,
  same_checkpoint,
}
use nanexus_event_intelligen.Persistence.Database.Frames.{Keeps, >>=-Keeps, store-appends}
use nanexus_event_intelligen.Persistence.Repositories.EntityMaps.{
  resolve_or_create_entity_mapping, mapped,
}
use nanexus_event_intelligen.Persistence.Repositories.EntityMaps
use nanexus_event_intelligen.Persistence.Repositories.Checkpoints
use nanexus_event_intelligen.Processor.Service.{
  JobRequest, create_processor_job, create, reuse_or_insert, insert_valid,
}
use nanexus_event_intelligen.Core.Contracts.ProcessorJob.{EvidenceRef}
use nanexus_event_intelligen.Frigate.Payloads.{FrigatePlatform}
use nanexus_event_intelligen.Frigate.Ingest.Rows.{evidence_rows, object_rows}
use nanexus_event_intelligen.Frigate.Ingest.{
  add_evidence, add_objects, upsert_review, request_job, record_review, attach,
}

-- The observations, the outbox and the raw messages.
abbrev pub recorded : Database → List Observation × List OutboxEvent × List RawSourceMessage
recorded db = (db.observations, db.outbox_events, db.raw_source_messages)

insert_evidence-Keeps : (row : Evidence) → Keeps recorded (insert_evidence row)
unfolding insert_evidence
insert_evidence-Keeps row db db' tt e =
    ap recorded
      (store-appends (λ t. record db { evidence = t }) same_evidence row db.evidence db' e)

insert_observed_object-Keeps : (row : ObservedObject) → Keeps recorded (insert_observed_object row)
unfolding insert_observed_object
insert_observed_object-Keeps row db db' tt e = ap recorded (
    store-appends (λ t. record db { observed_objects = t }) same_observed_object row
      db.observed_objects db' e)

insert_review_item-Keeps : (row : ReviewItem) → Keeps recorded (insert_review_item row)
unfolding insert_review_item
insert_review_item-Keeps row db db' tt e =
    ap recorded (
      store-appends (λ t. record db { review_items = t }) same_review_item row db.review_items db'
        e)

insert_review_observation-Keeps :
    (row : ReviewObservation) → Keeps recorded (insert_review_observation row)
unfolding insert_review_observation
insert_review_observation-Keeps row db db' tt e = ap recorded (
    store-appends (λ t. record db { review_observations = t }) same_review_observation row
      db.review_observations db' e)

insert_entity_map-Keeps : (row : SourceEntityMap) → Keeps recorded (insert_entity_map row)
unfolding insert_entity_map
insert_entity_map-Keeps row db db' tt e = ap recorded (
    store-appends (λ t. record db { source_entity_maps = t }) same_entity_map row
      db.source_entity_maps db' e)

insert_job-Keeps : (row : ProcessorJob) → Keeps recorded (insert_job row)
unfolding insert_job
insert_job-Keeps row db db' tt e =
    ap recorded
      (store-appends (λ t. record db { processor_jobs = t }) same_job row db.processor_jobs db' e)

insert_checkpoint-Keeps : (row : IngestCheckpoint) → Keeps recorded (insert_checkpoint row)
unfolding insert_checkpoint
insert_checkpoint-Keeps row db db' tt e = ap recorded (
    store-appends (λ t. record db { ingest_checkpoints = t }) same_checkpoint row
      db.ingest_checkpoints db' e)

pure-Keeps : {A : Type 0} (a : A) → Keeps recorded (pure a)
pure-Keeps a db db' b e = ground arith

gets-Keeps : {A : Type 0} (f : Database → A) → Keeps recorded (gets f)
gets-Keeps f db db' b e = ground arith

mapped-Keeps :
    (row : SourceEntityMap) (found : Option SourceEntityMap) → Keeps recorded (mapped row found)
unfolding EntityMaps.add
mapped-Keeps row (some m) = pure-Keeps m
mapped-Keeps row none =
    >>=-Keeps recorded (insert_entity_map row) _ (insert_entity_map-Keeps row) (λ _. pure-Keeps row)

pub resolve-Keeps : (row : SourceEntityMap) → Keeps recorded (resolve_or_create_entity_mapping row)
unfolding resolve_or_create_entity_mapping
resolve-Keeps row = >>=-Keeps recorded (gets _) _ (gets-Keeps _) (mapped-Keeps row)

add_evidence-Keeps : (rows : List Evidence) → Keeps recorded (add_evidence rows)
add_evidence-Keeps [] = pure-Keeps tt
add_evidence-Keeps (row ∷ rows) =
    >>=-Keeps recorded (insert_evidence row) _ (insert_evidence-Keeps row)
      (λ _. add_evidence-Keeps rows)

add_objects-Keeps : (rows : List ObservedObject) → Keeps recorded (add_objects rows)
add_objects-Keeps [] = pure-Keeps tt
add_objects-Keeps (row ∷ rows) =
    >>=-Keeps recorded (insert_observed_object row) _ (insert_observed_object-Keeps row)
      (λ _. add_objects-Keeps rows)

upsert_review-Keeps :
    (draws : Draws) (id : Uuid) (event : CanonicalSourceEvent) (found : Option ReviewItem)
    → Keeps recorded (upsert_review draws id event found)
upsert_review-Keeps draws id event (some review) = λ db db' a e. ground arith
upsert_review-Keeps draws id event none =
    >>=-Keeps recorded (insert_review_item _) _ (insert_review_item-Keeps _) (λ _. pure-Keeps _)

insert_valid-Keeps : (valid : Bool) (row : ProcessorJob) → Keeps recorded (insert_valid valid row)
insert_valid-Keeps false row = λ db db' a e. absurd (ground arith)
insert_valid-Keeps true row =
    >>=-Keeps recorded (insert_job row) _ (insert_job-Keeps row) (λ _. pure-Keeps row)

module _ (platform : Platform) where
  create-Keeps :
      (draws : Draws) (q : JobRequest) (refs : List EvidenceRef)
      → Keeps recorded (create platform draws q refs)
  create-Keeps draws q [] = λ db db' a e. absurd (ground arith)
  create-Keeps draws q (r ∷ refs) =
      >>=-Keeps recorded (gets _) _ (gets-Keeps _) (λ found. reuse found)
    where
      reuse :
          (found : Option ProcessorJob) → Keeps recorded (reuse_or_insert platform draws q found)
      reuse (some job) = pure-Keeps job
      reuse none = insert_valid-Keeps _ _

  create_processor_job-Keeps :
      (draws : Draws) (q : JobRequest) → Keeps recorded (create_processor_job platform draws q)
  unfolding create_processor_job
  create_processor_job-Keeps draws q = create-Keeps draws q q.evidence_refs

  module _ (frigate : FrigatePlatform) (draws : Draws) (event : CanonicalSourceEvent) where
    request_job-Keeps :
        (review : ReviewItem) (rows : List Evidence) (lifecycle : Lifecycle)
        → Keeps recorded (request_job platform frigate draws event review rows lifecycle)
    request_job-Keeps review rows Lifecycle.ended =
        >>=-Keeps recorded (create_processor_job platform _ _) _ (create_processor_job-Keeps _ _)
          (λ _. pure-Keeps tt)
    request_job-Keeps review rows Lifecycle.started = pure-Keeps tt
    request_job-Keeps review rows Lifecycle.updated = pure-Keeps tt
    request_job-Keeps review rows Lifecycle.corrected = pure-Keeps tt
    request_job-Keeps review rows Lifecycle.deleted = pure-Keeps tt

    record_review-Keeps :
        (internal observation_id : Uuid) (rows : List Evidence) (kind : EventKind)
        → Keeps recorded
            (record_review platform frigate draws event internal observation_id rows kind)
    record_review-Keeps internal observation_id rows EventKind.review =
        >>=-Keeps recorded (gets _) _ (gets-Keeps _) λ found.
          >>=-Keeps recorded (upsert_review draws internal event found) _
            (upsert_review-Keeps draws internal event found)
            λ review.
              >>=-Keeps recorded
                (insert_review_observation
                  (record { review_item_id = review.id; observation_id = observation_id }))
                _ (insert_review_observation-Keeps _)
                λ _. request_job-Keeps review rows event.lifecycle
    record_review-Keeps internal observation_id rows EventKind.object = pure-Keeps tt
    record_review-Keeps internal observation_id rows EventKind.motion = pure-Keeps tt
    record_review-Keeps internal observation_id rows EventKind.audio = pure-Keeps tt
    record_review-Keeps internal observation_id rows EventKind.sensor = pure-Keeps tt
    record_review-Keeps internal observation_id rows EventKind.system = pure-Keeps tt
    record_review-Keeps internal observation_id rows EventKind.unknown = pure-Keeps tt

    pub attach-Keeps :
        (source internal observation_id : Uuid)
        → Keeps recorded (attach platform frigate draws source event internal observation_id)
    attach-Keeps source internal observation_id =
        let evidence = evidence_rows draws 8 source observation_id event.evidence in
        let objects = object_rows draws 9 observation_id event.objects in
        >>=-Keeps recorded (add_evidence evidence) _ (add_evidence-Keeps evidence) λ _.
          >>=-Keeps recorded (add_objects objects) _ (add_objects-Keeps objects)
            λ _. record_review-Keeps internal observation_id evidence event.event_kind

advanced-Keeps :
    (id : Uuid) (now : Time) (source : Uuid) (stream cursor : String)
    (found : Option IngestCheckpoint)
    → Keeps recorded (Checkpoints.advanced id now source stream cursor found)
advanced-Keeps id now source stream cursor (some c) = λ db db' a e. ground arith
advanced-Keeps id now source stream cursor none = insert_checkpoint-Keeps _

pub advance-Keeps :
    (id : Uuid) (now : Time) (source : Uuid) (stream cursor : String)
    → Keeps recorded (Checkpoints.advance id now source stream cursor)
unfolding Checkpoints.advance
advance-Keeps id now source stream cursor =
    >>=-Keeps recorded (gets _) _ (gets-Keeps _) (advanced-Keeps id now source stream cursor)
