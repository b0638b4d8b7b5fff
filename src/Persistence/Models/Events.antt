-- ===== src/Persistence/Models/Events.antt =====
-- persistence/models.py: observations, review items, objects, evidence and the outbox.
use nanexus_event_intelligen.Prelude.{ℕ, String, Bool, Option, List}
use nanexus_event_intelligen.Core.{Uuid, Time}
use nanexus_event_intelligen.Core.Payload.{Fields}
use nanexus_event_intelligen.Core.Contracts.ProcessorJob.{PrivacyRoute, EvidenceAvailability}

pub record Observation : Type 0 where
  pub id : Uuid
  pub created_at : Time
  pub source_instance_id : Uuid
  pub camera_id : Option Uuid
  pub raw_message_id : Option Uuid
  pub source_namespace : String
  pub source_entity_id : String
  pub source_revision : String
  pub dedupe_key : String
  pub schema_version : String
  pub event_kind : String
  pub lifecycle : String
  pub occurred_at : Time
  pub observed_at : Time
  pub processed_at : Option Time
  pub start_at : Option Time
  pub end_at : Option Time
  pub partial_history : Bool
  pub labels : List String
  pub zones : List String
  pub extensions : Fields

pub data ReviewStatus : Type 0 where
  active ended corrected deleted : ReviewStatus

pub record ReviewItem : Type 0 where
  pub id : Uuid
  pub created_at : Time
  pub camera_id : Option Uuid
  pub status : ReviewStatus
  pub severity : Option String
  pub start_at : Time
  pub end_at : Option Time
  pub labels : List String
  pub zones : List String
  pub source_revision : String

pub record ReviewObservation : Type 0 where
  pub review_item_id : Uuid
  pub observation_id : Uuid

pub record ObservedObject : Type 0 where
  pub id : Uuid
  pub created_at : Time
  pub observation_id : Uuid
  pub object_key : String
  pub label : String
  pub sub_labels : List String
  pub confidence : Option ℕ
  pub stationary : Option Bool
  pub track : Fields

pub record Evidence : Type 0 where
  pub id : Uuid
  pub created_at : Time
  pub source_instance_id : Uuid
  pub observation_id : Option Uuid
  pub media_type : String
  pub source_ref : String
  pub captured_at : Option Time
  pub privacy_class : PrivacyRoute
  pub availability : EvidenceAvailability
  pub sha256 : Option String
  pub expires_at : Option Time
  pub metadata_json : Fields

pub record OutboxEvent : Type 0 where
  pub id : Uuid
  pub created_at : Time
  pub aggregate_type : String
  pub aggregate_id : Uuid
  pub event_type : String
  pub schema_version : String
  pub dedupe_key : String
  pub payload : Fields
  pub published_at : Option Time
  pub attempts : ℕ
  pub last_error : Option String
