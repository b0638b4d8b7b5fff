-- ===== src/Persistence/Repositories/Observations.antt =====
-- persistence/repositories.py: ObservationRepository.
use nanexus_event_intelligen.Prelude.{
  String, Bool, ◌&&◌, ◌||◌, Option, none, List, eqb, leb, ltb, ◌==◌, string_eq, find?, filter,
}
use nanexus_event_intelligen.Prelude.Sorting.{sorted}
use nanexus_event_intelligen.Core.{
  Uuid, Time, Error, duplicate_observation_error, integrity_error, Result, ok, err,
}
use nanexus_event_intelligen.Core.Payload.{Fields}
use nanexus_event_intelligen.Persistence.Models.{Observation}
use nanexus_event_intelligen.Persistence.Database.{Database, Tx, insert_observation}

pub record NewObservation : Type 0 where
  pub source_instance_id : Uuid
  pub source_namespace : String
  pub source_entity_id : String
  pub source_revision : String
  pub dedupe_key : String
  pub schema_version : String
  pub event_kind : String
  pub lifecycle : String
  pub occurred_at : Time
  pub observed_at : Time
  pub camera_id : Option Uuid
  pub raw_message_id : Option Uuid
  pub start_at : Option Time
  pub end_at : Option Time
  pub partial_history : Bool
  pub labels : List String
  pub zones : List String
  pub extensions : Fields

abbrev pub has_key : Uuid → String → Observation → Bool
has_key source key o = eqb o.source_instance_id source && o.dedupe_key == key

abbrev pub row : Uuid → Time → NewObservation → Observation
row id created_at new = record {
  id = id;
  created_at = created_at;
  source_instance_id = new.source_instance_id;
  camera_id = new.camera_id;
  raw_message_id = new.raw_message_id;
  source_namespace = new.source_namespace;
  source_entity_id = new.source_entity_id;
  source_revision = new.source_revision;
  dedupe_key = new.dedupe_key;
  schema_version = new.schema_version;
  event_kind = new.event_kind;
  lifecycle = new.lifecycle;
  occurred_at = new.occurred_at;
  observed_at = new.observed_at;
  processed_at = none;
  start_at = new.start_at;
  end_at = new.end_at;
  partial_history = new.partial_history;
  labels = new.labels;
  zones = new.zones;
  extensions = new.extensions;
}

-- `except IntegrityError: raise DuplicateObservationError(key)`, which rolls back what there is.
abbrev pub refused : Error → String → Error
refused integrity_error key = duplicate_observation_error key
refused e key = e

abbrev pub flushed : Observation → Result (Unit {0} × Database) → Result (Observation × Database)
flushed o (ok (u, db)) = ok (o, db)
flushed o (err e) = err (refused e o.dedupe_key)

unfoldable pub add : Uuid → Time → NewObservation → Tx Observation
add id created_at new db =
    flushed (row id created_at new) (insert_observation (row id created_at new) db)

unfoldable pub get : Uuid → Database → Option Observation
get id db = find? (λ (o : Observation). eqb o.id id) db.observations

abbrev pub get_by_dedupe_key : Uuid → String → Database → Option Observation
get_by_dedupe_key source key db = find? (has_key source key) db.observations

abbrev pub is_of_entity : Uuid → String → String → Observation → Bool
is_of_entity source namespace entity o =
    eqb o.source_instance_id source
    && (o.source_namespace == namespace && o.source_entity_id == entity)

-- `ORDER BY occurred_at, created_at`
abbrev pub occurred_le : Observation → Observation → Bool
occurred_le a b =
    ltb a.occurred_at b.occurred_at
    || (eqb a.occurred_at b.occurred_at && leb a.created_at b.created_at)

abbrev pub list_for_entity : Uuid → String → String → Database → List Observation
list_for_entity source namespace entity db =
    sorted occurred_le (filter (is_of_entity source namespace entity) db.observations)
