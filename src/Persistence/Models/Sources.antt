-- ===== src/Persistence/Models/Sources.antt =====
-- persistence/models.py: sources, raw messages, entity identities and ingest checkpoints.
use nanexus_event_intelligen.Prelude.{String, Bool, Option, List}
use nanexus_event_intelligen.Core.{Uuid, Time}
use nanexus_event_intelligen.Core.Payload.{Fields}

pub data HealthStatus : Type 0 where
  starting healthy degraded offline stopped : HealthStatus

pub record SourceInstance : Type 0 where
  pub id : Uuid
  pub created_at : Time
  pub source_type : String
  pub name : String
  pub source_version : Option String
  pub adapter_version : String
  pub capabilities : Fields
  pub config_ref : Option String
  pub trust_boundary : String
  pub health_status : HealthStatus
  pub updated_at : Time

pub record Camera : Type 0 where
  pub id : Uuid
  pub created_at : Time
  pub site_id : String
  pub name : String
  pub display_name : String
  pub timezone : String
  pub zones : List String
  pub privacy_policy : Fields

pub record SourceEntityMap : Type 0 where
  pub id : Uuid
  pub created_at : Time
  pub source_instance_id : Uuid
  pub namespace : String
  pub source_entity_id : String
  pub entity_type : String
  pub internal_entity_id : Uuid

pub record RawSourceMessage : Type 0 where
  pub id : Uuid
  pub source_instance_id : Uuid
  pub transport : String
  pub channel : String
  pub schema_version : String
  pub dedupe_key : String
  pub payload : Fields
  pub payload_sha256 : String
  pub observed_at : Time
  pub quarantined : Bool
  pub quarantine_reason : Option String

pub record IngestCheckpoint : Type 0 where
  pub id : Uuid
  pub source_instance_id : Uuid
  pub stream : String
  pub cursor : String
  pub updated_at : Time
