-- ===== src/Processor/Service.antt =====
-- processor/service.py: one job for each revision, set of evidence and policy.
pub mod Idempotence
pub mod EvidenceOrder
use nanexus_event_intelligen.Prelude.{
  ℕ, String, ◌≡◌, refl, Bool, true, false, not, Option, none, some, List, [], ◌∷◌, map, arith, eqb,
  leb, ◌==◌, string_eq, find?, or_else, if◌then◌else◌,
}
use nanexus_event_intelligen.Prelude.Sorting.{sorted}
use nanexus_event_intelligen.Prelude.Texts.{append}
use nanexus_event_intelligen.Core.{Uuid, Time, Result, ok, err, value_error, Platform, Draws}
use nanexus_event_intelligen.Core.Payload.{
  Json, Items, nil, item, Fields, end, field, text, bool, obj, arr,
}
use nanexus_event_intelligen.Core.Contracts.ProcessorJob.{
  PrivacyRoute, local_only, cloud_redacted, cloud_allowed, EvidenceRef, EvidenceAvailability,
  available, pending, expired, denied, unknown, EvidenceType, snapshot, PrivacyPolicy, Retention,
  keep_none, ephemeral, RequestedOutput, caption, tags, review_item, contract_valid,
  ProcessorJob as JobContract,
}
use nanexus_event_intelligen.Persistence.Models.{ProcessorJob, ReviewItem}
use nanexus_event_intelligen.Persistence.Models.{JobStatus}
use nanexus_event_intelligen.Persistence.Database.{
  Database, Tx, pure, raise, raise_if, gets, insert_job, ◌>>=◌, ◌>>◌,
}

-- `PUBLIC_PROCESSOR_TYPE` and `CONTRACT_VERSION`
abbrev pub public_processor_type : String
public_processor_type = "video_summary.caption_tags"

abbrev pub contract_version : String
contract_version = "1.0"

abbrev pub route_text : PrivacyRoute → String
route_text local_only = "local_only"
route_text cloud_redacted = "cloud_redacted"
route_text cloud_allowed = "cloud_allowed"

abbrev pub availability_text : EvidenceAvailability → String
availability_text available = "available"
availability_text pending = "pending"
availability_text expired = "expired"
availability_text denied = "denied"
availability_text unknown = "unknown"

abbrev retention_text : Retention → String
retention_text keep_none = "none"
retention_text ephemeral = "ephemeral"

-- `item.model_dump(mode="json")`
abbrev dump_evidence : Platform → EvidenceRef → Json
dump_evidence platform e = obj (
    field "evidence_id" (text (platform.show_uuid e.evidence_id)) (
      field "media_type" (text "snapshot") (
        field "privacy_class" (text (route_text e.privacy_class)) (
          field "availability" (text (availability_text e.availability))
            (field "purpose" (text e.purpose) end)))))

abbrev dump_policy : PrivacyPolicy → Json
dump_policy p = obj (
    field "policy_id" (text p.policy_id) (
      field "policy_version" (text p.policy_version) (
        field "route" (text (route_text p.route)) (
          field "external_network_allowed" (bool p.external_network_allowed)
            (field "retention" (text (retention_text p.retention)) end)))))

abbrev pub items_of : List Json → Items
items_of [] = nil
items_of (j ∷ js) = item j (items_of js)

-- By the text of the evidence's id, which orders as the id does.
abbrev pub evidence_le : EvidenceRef → EvidenceRef → Bool
evidence_le a b = leb a.evidence_id b.evidence_id

-- The material, with the evidence sorted.
abbrev pub material : Platform → Uuid → String → List EvidenceRef → PrivacyPolicy → Json
material platform review_item_id revision ordered policy = obj (
    field "contract_version" (text contract_version) (
      field "processor_type" (text public_processor_type) (
        field "subject_type" (text "review_item") (
          field "subject_id" (text (platform.show_uuid review_item_id)) (
            field "subject_revision" (text revision) (
              field "evidence" (arr (items_of (map (dump_evidence platform) ordered))) (
                field "outputs" (arr (item (text "caption") (item (text "tags") nil)))
                  (field "privacy_policy" (dump_policy policy) end))))))))

-- The hash of the material.
abbrev pub key_of_sorted : Platform → Uuid → String → PrivacyPolicy → List EvidenceRef → String
key_of_sorted platform review_item_id revision policy ordered =
    append "processor-job:v1:"
      (platform.sha256 (platform.dumps (material platform review_item_id revision ordered policy)))

unfoldable pub processor_job_idempotency_key :
    Platform → Uuid → String → List EvidenceRef → PrivacyPolicy → String
processor_job_idempotency_key platform review_item_id revision evidence policy =
    key_of_sorted platform review_item_id revision policy (sorted evidence_le evidence)

-- The arguments of `create_processor_job`.
pub record JobRequest : Type 0 where
  pub review_item : ReviewItem
  pub evidence_refs : List EvidenceRef
  pub privacy_policy : PrivacyPolicy
  pub requested_at : Option Time
  pub trace_id : Option Uuid

abbrev pub ordered_evidence : JobRequest → List EvidenceRef
ordered_evidence q = sorted evidence_le q.evidence_refs

abbrev pub key_of : Platform → JobRequest → String
key_of platform q =
    processor_job_idempotency_key platform q.review_item.id q.review_item.source_revision
      (ordered_evidence q) q.privacy_policy

abbrev requested_time : Draws → JobRequest → Time
requested_time draws q = or_else q.requested_at (draws.now 0)

abbrev pub contract_of : Platform → Draws → JobRequest → JobContract
contract_of platform draws q = record {
  job_id = draws.id 0;
  contract_version = contract_version;
  processor_type = public_processor_type;
  subject_type = review_item;
  subject_id = q.review_item.id;
  subject_revision = q.review_item.source_revision;
  evidence_refs = ordered_evidence q;
  requested_outputs =
      record { output_type = caption; schema_version = contract_version; required = true }
      ∷ record { output_type = tags; schema_version = contract_version; required = true }
      ∷ [];
  privacy_policy = q.privacy_policy;
  idempotency_key = key_of platform q;
  requested_at = requested_time draws q;
  trace_id = or_else q.trace_id (draws.id 1);
}

abbrev pub job_row : Platform → Draws → JobRequest → ProcessorJob
job_row platform draws q =
    let contract = contract_of platform draws q in
    record {
      id = draws.id 0;
      created_at = draws.now 1;
      processor_type = contract.processor_type;
      subject_type = contract.subject_type;
      subject_id = contract.subject_id;
      subject_revision = contract.subject_revision;
      contract_version = contract.contract_version;
      idempotency_key = contract.idempotency_key;
      trace_id = contract.trace_id;
      status = JobStatus.pending;
      payload = contract;
      attempt_count = 0;
      available_at = requested_time draws q;
      started_at = none;
      completed_at = none;
      last_error_code = none;
      last_error = none;
      updated_at = draws.now 2;
    }

abbrev pub find_job : String → Database → Option ProcessorJob
find_job key db = find? (λ (job : ProcessorJob). job.idempotency_key == key) db.processor_jobs

-- The new row, where the contract's validators let its contract through.
abbrev pub insert_valid : Bool → ProcessorJob → Tx ProcessorJob
insert_valid false row = raise (value_error "validation error")
insert_valid true row = do insert_job row; pure row

abbrev pub reuse_or_insert : Platform → Draws → JobRequest → Option ProcessorJob → Tx ProcessorJob
reuse_or_insert platform draws q (some job) = pure job
reuse_or_insert platform draws q none =
    insert_valid (contract_valid (contract_of platform draws q)) (job_row platform draws q)

abbrev pub create : Platform → Draws → JobRequest → List EvidenceRef → Tx ProcessorJob
create platform draws q [] = raise (value_error "at least one evidence reference is required")
create platform draws q (e ∷ es) = do
  existing ← gets (find_job (key_of platform q))
  reuse_or_insert platform draws q existing

unfoldable pub create_processor_job : Platform → Draws → JobRequest → Tx ProcessorJob
create_processor_job platform draws q = create platform draws q q.evidence_refs
