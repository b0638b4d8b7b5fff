-- ===== src/Pipeline/Envelope.antt =====
-- pipeline/worker.py: the decoded message that a handler receives.
use nanexus_event_intelligen.Prelude.{String}
use nanexus_event_intelligen.Core.Payload.{Fields}

pub record StreamEnvelope : Type 0 where
  pub outbox_id : String
  pub dedupe_key : String
  pub aggregate_type : String
  pub aggregate_id : String
  pub event_type : String
  pub schema_version : String
  pub payload : Fields
