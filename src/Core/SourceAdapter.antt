-- ===== src/Core/SourceAdapter.antt =====
-- core/source_adapter.py: the contract between a source's adapter and the core.
use nanexus_event_intelligen.Prelude.{ℕ, String, Bool, Option, List}
use nanexus_event_intelligen.Core.Values.{Uuid, Time}
use nanexus_event_intelligen.Core.Payload.{Fields}
use nanexus_event_intelligen.Core.Contracts.ProcessorJob.{PrivacyRoute, EvidenceAvailability}

pub record CapabilitySet : Type 0 where
  pub live_events : Bool
  pub historical_query : Bool
  pub media_fetch : Bool
  pub object_tracks : Bool
  pub review_groups : Bool
  pub semantic_metadata : Bool
  pub health : Bool
  pub writeback : Bool

pub record SourceDescriptor : Type 0 where
  pub schema_version : String
  pub source_type : String
  pub source_version : Option String
  pub adapter_version : String
  pub capabilities : CapabilitySet

pub data EventKind : Type 0 where
  review object motion audio sensor system unknown : EventKind

pub data Lifecycle : Type 0 where
  started updated ended corrected deleted : Lifecycle

-- The texts of the two literals.
abbrev pub kind_text : EventKind → String
kind_text EventKind.review = "review"
kind_text EventKind.object = "object"
kind_text EventKind.motion = "motion"
kind_text EventKind.audio = "audio"
kind_text EventKind.sensor = "sensor"
kind_text EventKind.system = "system"
kind_text EventKind.unknown = "unknown"

abbrev pub lifecycle_text : Lifecycle → String
lifecycle_text Lifecycle.started = "started"
lifecycle_text Lifecycle.updated = "updated"
lifecycle_text Lifecycle.ended = "ended"
lifecycle_text Lifecycle.corrected = "corrected"
lifecycle_text Lifecycle.deleted = "deleted"

-- The dictionaries that an adapter puts into `objects`, `evidence` and `links`, with the keys that
-- adapters/frigate/normalizer.py writes.
pub record ObjectItem : Type 0 where
  pub object_id : String
  pub label : String
  pub sub_labels : List String
  pub confidence : Option ℕ
  pub stationary : Option Bool

pub record EvidenceItem : Type 0 where
  pub media_type : String
  pub source_ref : String
  pub captured_at : Time
  pub privacy_class : PrivacyRoute
  pub availability : EvidenceAvailability
  pub metadata_json : Fields

pub record Link : Type 0 where
  pub relation : String
  pub namespace : String
  pub source_entity_id : String

pub record CanonicalSourceEvent : Type 0 where
  pub schema_version : String
  pub event_id : Uuid
  pub source_instance_id : Uuid
  pub source_namespace : String
  pub source_entity_id : String
  pub source_revision : String
  pub dedupe_key : String
  pub event_kind : EventKind
  pub lifecycle : Lifecycle
  pub occurred_at : Time
  pub observed_at : Time
  pub camera_id : Option Uuid
  pub start_at : Option Time
  pub end_at : Option Time
  pub partial_history : Bool
  pub labels : List String
  pub zones : List String
  pub objects : List ObjectItem
  pub evidence : List EvidenceItem
  pub links : List Link
  pub raw_ref : Option String
  pub extensions : Fields
