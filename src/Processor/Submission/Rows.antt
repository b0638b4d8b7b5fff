-- ===== src/Processor/Submission/Rows.antt =====
-- api/routes/processor.py: the rows that an accepted result adds.
use nanexus_event_intelligen.Prelude.{ℕ, ◌-◌, ◌/◌, String, false, Option, none, some, List, [], ◌∷◌}
use nanexus_event_intelligen.Prelude.Texts.{append}
use nanexus_event_intelligen.Core.{Time, Platform, Draws}
use nanexus_event_intelligen.Core.Payload.{Fields, end, field, text, texts}
use nanexus_event_intelligen.Core.Contracts.EnrichmentResult.{
  EnrichmentResult, ResultStatus, succeeded, abstained, failed, ResultError, ClaimPayload, caption,
  tags, Claim as WireClaim,
}
use nanexus_event_intelligen.Persistence.Models.{
  ProcessorJob, JobStatus, ModelInvocation, InvocationStatus, Claim, AuditRecord,
}

abbrev pub job_status : ResultStatus → JobStatus
job_status succeeded = JobStatus.succeeded
job_status abstained = JobStatus.abstained
job_status failed = JobStatus.failed

abbrev invocation_status : ResultStatus → InvocationStatus
invocation_status succeeded = InvocationStatus.succeeded
invocation_status abstained = InvocationStatus.abstained
invocation_status failed = InvocationStatus.failed

abbrev status_text : ResultStatus → String
status_text succeeded = "succeeded"
status_text abstained = "abstained"
status_text failed = "failed"

-- `result.errors[0].code if result.errors else None`
abbrev first_code : List ResultError → Option String
first_code [] = none
first_code (e ∷ es) = some e.code

abbrev first_reason : List ResultError → Option String
first_reason [] = none
first_reason (e ∷ es) = some e.reason

-- Milliseconds between two times in microseconds, none below zero: ◌-◌ stops there as `max` does.
abbrev latency : Time → Time → ℕ
latency started completed = (completed - started) / 1000

abbrev pub invocation_row :
    Platform
    → (EnrichmentResult → String)
    → Draws
    → ProcessorJob
    → EnrichmentResult
    → ModelInvocation
invocation_row platform dump_result draws job result =
    let facts = result.model_invocation in
    record {
      id = draws.id 0;
      created_at = draws.now 0;
      processor_job_id = some job.id;
      provider = facts.provider;
      model = facts.model;
      runtime_version = some facts.model_version;
      prompt_version = "processor-contract-v1";
      schema_version = result.contract_version;
      privacy_route = facts.privacy_route;
      latency_ms = some (latency facts.started_at facts.completed_at);
      input_units = none;
      output_units = none;
      cost_micros = none;
      result_hash = some (platform.sha256 (dump_result result));
      error_code = first_code result.errors;
      error_message = first_reason result.errors;
      status = invocation_status result.status;
      started_at = some facts.started_at;
      completed_at = some facts.completed_at;
      external_network_used = facts.external_network_used;
    }

abbrev claim_value : ClaimPayload → Fields
claim_value (caption t) = field "text" (text t) end
claim_value (tags ts) = field "tags" (texts ts) end

abbrev claim_type : ClaimPayload → String
claim_type (caption t) = "caption"
claim_type (tags ts) = "tags"

abbrev pub claim_row : Draws → ProcessorJob → EnrichmentResult → ℕ → WireClaim → Claim
claim_row draws job result n wire =
    let facts = result.model_invocation in
    record {
      id = draws.id n;
      created_at = draws.now n;
      observation_id = none;
      review_item_id = some job.subject_id;
      model_invocation_id = some (draws.id 0);
      producer_type = "model";
      producer_version = append facts.model (append "@" facts.model_version);
      predicate = claim_type wire.payload;
      value = claim_value wire.payload;
      confidence = wire.confidence;
      abstained = false;
      evidence_unavailable = false;
    }

-- `job.status = ...` and the three assignments after it; the clock gives the `updated_at` of the
-- UPDATE.
abbrev pub finished : EnrichmentResult → Time → ProcessorJob → ProcessorJob
finished result clock job = record job {
  status = job_status result.status;
  completed_at = some result.completed_at;
  last_error_code = first_code result.errors;
  last_error = first_reason result.errors;
  updated_at = clock;
}

abbrev pub audit_row : Platform → Draws → String → ProcessorJob → EnrichmentResult → ℕ → AuditRecord
audit_row platform draws actor job result n = record {
  id = draws.id n;
  actor = append "processor:" actor;
  action = "enrichment_result.accepted";
  target_type = "processor_job";
  target_id = some job.id;
  occurred_at = draws.now n;
  before = some (field "status" (text "running") end);
  after = some (field "status" (text (status_text result.status)) end);
  metadata_json =
      field "trace_id" (text (platform.show_uuid job.trace_id))
        (field "contract_version" (text result.contract_version) end);
}
