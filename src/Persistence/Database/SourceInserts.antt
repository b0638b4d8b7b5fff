-- ===== src/Persistence/Database/SourceInserts.antt =====
-- `session.add(row)` with its flush, for the tables that an ingest and the API write. The tests are
-- the primary keys and the unique constraints of persistence/models.py; foreign keys and the lengths of
-- texts are not tested.
use nanexus_event_intelligen.Prelude.{Bool, ◌&&◌, ◌||◌, eqb, ◌==◌, string_eq}
use nanexus_event_intelligen.Persistence.Models.{
  SourceInstance, SourceEntityMap, RawSourceMessage, IngestCheckpoint, Observation, ReviewItem,
  ReviewObservation, ObservedObject, Evidence, Feedback,
}
use nanexus_event_intelligen.Persistence.Database.Tables.{Tx, add_row}
use nanexus_event_intelligen.Persistence.Database.Inserts.{store}

abbrev pub same_source : SourceInstance → SourceInstance → Bool
same_source a b = eqb a.id b.id || (a.source_type == b.source_type && a.name == b.name)

abbrev pub same_entity_map : SourceEntityMap → SourceEntityMap → Bool
same_entity_map a b =
    eqb a.id b.id
    || (eqb a.source_instance_id b.source_instance_id
        && (a.namespace == b.namespace && a.source_entity_id == b.source_entity_id))

abbrev pub same_raw_message : RawSourceMessage → RawSourceMessage → Bool
same_raw_message a b =
    eqb a.id b.id || (eqb a.source_instance_id b.source_instance_id && a.dedupe_key == b.dedupe_key)

abbrev pub same_checkpoint : IngestCheckpoint → IngestCheckpoint → Bool
same_checkpoint a b =
    eqb a.id b.id || (eqb a.source_instance_id b.source_instance_id && a.stream == b.stream)

abbrev pub same_observation : Observation → Observation → Bool
same_observation a b =
    eqb a.id b.id || (eqb a.source_instance_id b.source_instance_id && a.dedupe_key == b.dedupe_key)

abbrev pub same_review_item : ReviewItem → ReviewItem → Bool
same_review_item a b = eqb a.id b.id

abbrev pub same_review_observation : ReviewObservation → ReviewObservation → Bool
same_review_observation a b =
    eqb a.review_item_id b.review_item_id && eqb a.observation_id b.observation_id

abbrev pub same_observed_object : ObservedObject → ObservedObject → Bool
same_observed_object a b =
    eqb a.id b.id || (eqb a.observation_id b.observation_id && a.object_key == b.object_key)

abbrev pub same_evidence : Evidence → Evidence → Bool
same_evidence a b =
    eqb a.id b.id || (eqb a.source_instance_id b.source_instance_id && a.source_ref == b.source_ref)

abbrev pub same_feedback : Feedback → Feedback → Bool
same_feedback a b = eqb a.id b.id

unfoldable pub insert_source : SourceInstance → Tx (Unit {0})
insert_source row db =
    store (λ t. record db { source_instances = t }) (add_row same_source row db.source_instances)

unfoldable pub insert_entity_map : SourceEntityMap → Tx (Unit {0})
insert_entity_map row db =
    store (λ t. record db { source_entity_maps = t })
      (add_row same_entity_map row db.source_entity_maps)

unfoldable pub insert_raw_message : RawSourceMessage → Tx (Unit {0})
insert_raw_message row db =
    store (λ t. record db { raw_source_messages = t })
      (add_row same_raw_message row db.raw_source_messages)

unfoldable pub insert_checkpoint : IngestCheckpoint → Tx (Unit {0})
insert_checkpoint row db =
    store (λ t. record db { ingest_checkpoints = t })
      (add_row same_checkpoint row db.ingest_checkpoints)

unfoldable pub insert_observation : Observation → Tx (Unit {0})
insert_observation row db =
    store (λ t. record db { observations = t }) (add_row same_observation row db.observations)

unfoldable pub insert_review_item : ReviewItem → Tx (Unit {0})
insert_review_item row db =
    store (λ t. record db { review_items = t }) (add_row same_review_item row db.review_items)

unfoldable pub insert_review_observation : ReviewObservation → Tx (Unit {0})
insert_review_observation row db =
    store (λ t. record db { review_observations = t })
      (add_row same_review_observation row db.review_observations)

unfoldable pub insert_observed_object : ObservedObject → Tx (Unit {0})
insert_observed_object row db =
    store (λ t. record db { observed_objects = t })
      (add_row same_observed_object row db.observed_objects)

unfoldable pub insert_evidence : Evidence → Tx (Unit {0})
insert_evidence row db =
    store (λ t. record db { evidence = t }) (add_row same_evidence row db.evidence)

unfoldable pub insert_feedback : Feedback → Tx (Unit {0})
insert_feedback row db =
    store (λ t. record db { feedback = t }) (add_row same_feedback row db.feedback)
