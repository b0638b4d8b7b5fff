-- ===== src/Persistence/Models/Processing.antt =====
-- persistence/models.py: processor jobs, model invocations and claims.
use nanexus_event_intelligen.Prelude.{ℕ, String, Bool, Option}
use nanexus_event_intelligen.Core.{Uuid, Time}
use nanexus_event_intelligen.Core.Payload.{Fields}
use nanexus_event_intelligen.Core.Contracts.ProcessorJob.{
  PrivacyRoute, SubjectType, ProcessorJob as JobContract,
}

pub record ModelInvocationEvidence : Type 0 where
  pub model_invocation_id : Uuid
  pub evidence_id : Uuid

pub data InvocationStatus : Type 0 where
  running succeeded abstained failed : InvocationStatus

pub record ModelInvocation : Type 0 where
  pub id : Uuid
  pub created_at : Time
  pub processor_job_id : Option Uuid
  pub provider : String
  pub model : String
  pub runtime_version : Option String
  pub prompt_version : String
  pub schema_version : String
  pub privacy_route : PrivacyRoute
  pub latency_ms : Option ℕ
  pub input_units : Option ℕ
  pub output_units : Option ℕ
  pub cost_micros : Option ℕ
  pub result_hash : Option String
  pub error_code : Option String
  pub error_message : Option String
  pub status : InvocationStatus
  pub started_at : Option Time
  pub completed_at : Option Time
  pub external_network_used : Bool

pub data JobStatus : Type 0 where
  pending running retry_wait succeeded abstained failed : JobStatus

-- `payload` holds the contract as `model_dump` wrote it, kept here as the contract itself, which
-- `model_validate` gives back.
pub record ProcessorJob : Type 0 where
  pub id : Uuid
  pub created_at : Time
  pub processor_type : String
  pub subject_type : SubjectType
  pub subject_id : Uuid
  pub subject_revision : String
  pub contract_version : String
  pub idempotency_key : String
  pub trace_id : Uuid
  pub status : JobStatus
  pub payload : JobContract
  pub attempt_count : ℕ
  pub available_at : Time
  pub started_at : Option Time
  pub completed_at : Option Time
  pub last_error_code : Option String
  pub last_error : Option String
  pub updated_at : Time

pub record Claim : Type 0 where
  pub id : Uuid
  pub created_at : Time
  pub observation_id : Option Uuid
  pub review_item_id : Option Uuid
  pub model_invocation_id : Option Uuid
  pub producer_type : String
  pub producer_version : String
  pub predicate : String
  pub value : Fields
  pub confidence : Option ℕ
  pub abstained : Bool
  pub evidence_unavailable : Bool

pub record ClaimEvidence : Type 0 where
  pub claim_id : Uuid
  pub evidence_id : Uuid
