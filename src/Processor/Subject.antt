-- ===== src/Processor/Subject.antt =====
-- api/routes/processor.py: what a processor may read of a job's subject and of its evidence. The
-- content of the evidence comes from a reader, which is a parameter.
use nanexus_event_intelligen.Prelude.{
  String, Bool, true, false, not, ◌&&◌, Option, none, some, List, eqb, find?, is_some,
  if◌then◌else◌,
}
use nanexus_event_intelligen.Core.{Uuid, Time, http_exception}
use nanexus_event_intelligen.Core.Payload.{Fields}
use nanexus_event_intelligen.Core.Contracts.ProcessorJob.{
  EvidenceRef, EvidenceAvailability, available, SubjectType,
}
use nanexus_event_intelligen.Persistence.Models.{
  ProcessorJob, JobStatus, running, succeeded, abstained, failed, ReviewItem, ReviewStatus, Camera,
  Evidence, Observation, SourceInstance,
}
use nanexus_event_intelligen.Persistence.Database.{
  Database, Tx, pure, raise, gets, or_raise, raise_if, ◌>>=◌, ◌>>◌,
}

pub record SubjectMetadata : Type 0 where
  pub subject_type : SubjectType
  pub subject_id : Uuid
  pub subject_revision : String
  pub lifecycle : ReviewStatus
  pub labels : List String
  pub zones : List String
  pub camera : Option String
  pub site : Option String
  pub occurred_at : Time

-- `PROCESSOR_READABLE_STATES`
abbrev pub is_readable : JobStatus → Bool
is_readable running = true
is_readable succeeded = true
is_readable abstained = true
is_readable failed = true
is_readable _ = false

-- `_job`
unfoldable pub job_of : Uuid → Tx ProcessorJob
job_of job_id = do
  found ← gets (λ db. find? (λ (job : ProcessorJob). eqb job.id job_id) db.processor_jobs)
  or_raise found (http_exception 404 "processor job not found")

abbrev camera_of : Option Uuid → Database → Option Camera
camera_of none db = none
camera_of (some id) db = find? (λ (c : Camera). eqb c.id id) db.cameras

abbrev camera_name : Option Camera → Option String
camera_name none = none
camera_name (some c) = some c.name

abbrev camera_site : Option Camera → Option String
camera_site none = none
camera_site (some c) = some c.site_id

abbrev metadata_of : ProcessorJob → ReviewItem → Option Camera → SubjectMetadata
metadata_of job review camera = record {
  subject_type = job.subject_type;
  subject_id = review.id;
  subject_revision = job.subject_revision;
  lifecycle = review.status;
  labels = review.labels;
  zones = review.zones;
  camera = camera_name camera;
  site = camera_site camera;
  occurred_at = review.start_at;
}

-- `subject_type` has one member, so its test never fails.
unfoldable pub subject_metadata : Uuid → Tx SubjectMetadata
subject_metadata job_id = do
  job ← job_of job_id
  raise_if (not (is_readable job.status)) (http_exception 404 "job subject not found")
  found ← gets (λ db. find? (λ (r : ReviewItem). eqb r.id job.subject_id) db.review_items)
  review ← or_raise found (http_exception 404 "job subject not found")
  camera ← gets (camera_of review.camera_id)
  pure (metadata_of job review camera)

pub record EvidenceContentRequest : Type 0 where
  pub evidence_id : Uuid
  pub source_type : String
  pub source_namespace : String
  pub source_entity_id : String
  pub extensions : Fields

-- `EvidenceContent`, or `EvidenceContentUnavailable` and whether it is retryable.
pub data ReadResult (B : Type 0) : Type 0 where
  content : B → String → ReadResult B
  unavailable : Bool → ReadResult B

abbrev pub is_available : EvidenceAvailability → Bool
is_available available = true
is_available _ = false

abbrev joined_source : Observation → Option SourceInstance → Option (Observation × SourceInstance)
joined_source o none = none
joined_source o (some s) = some (o, s)

abbrev joined : Evidence → Option Observation → Database → Option (Observation × SourceInstance)
joined e none db = none
joined e (some o) db =
    joined_source o
      (find? (λ (s : SourceInstance). eqb s.id e.source_instance_id) db.source_instances)

abbrev observation_of : Option Uuid → Database → Option Observation
observation_of none db = none
observation_of (some id) db = find? (λ (o : Observation). eqb o.id id) db.observations

abbrev evidence_source : Option Evidence → Database → Option (Observation × SourceInstance)
evidence_source none db = none
evidence_source (some e) db = joined e (observation_of e.observation_id db) db

-- The row of the join by the evidence's id.
abbrev pub evidence_row : Uuid → Database → Option (Observation × SourceInstance)
evidence_row evidence_id db =
    evidence_source (find? (λ (e : Evidence). eqb e.id evidence_id) db.evidence) db

abbrev granted_reference : Uuid → ProcessorJob → Option EvidenceRef
granted_reference evidence_id job =
    find? (λ (item : EvidenceRef). eqb item.evidence_id evidence_id) job.payload.evidence_refs

module _ {B : Type 0} (read : EvidenceContentRequest → ReadResult B) where
  abbrev read_content : EvidenceContentRequest → Tx (B × String)
  read_content request = reply (read request)
    where
      reply : ReadResult B → Tx (B × String)
      reply (content bytes kind) = pure (bytes, kind)
      reply (unavailable retryable) =
          raise (http_exception (if retryable then 503 else 404) "evidence content unavailable")

  unfoldable pub evidence_content : Uuid → Uuid → Tx (B × String)
  evidence_content job_id evidence_id = do
    job ← job_of job_id
    raise_if (not (is_readable job.status)) (http_exception 409 "processor job is not readable")
    reference ←
        or_raise (granted_reference evidence_id job)
          (http_exception 403 "evidence is outside this job grant")
    found ← gets (evidence_row evidence_id)
    raise_if (not (is_some found && is_available reference.availability))
        (http_exception 404 "evidence unavailable")
    row ← or_raise found (http_exception 404 "evidence unavailable")
    read_content (record {
      evidence_id = evidence_id;
      source_type = row.1.source_type;
      source_namespace = row.0.source_namespace;
      source_entity_id = row.0.source_entity_id;
      extensions = row.0.extensions;
    })
