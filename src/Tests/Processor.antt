-- ===== src/Tests/Processor.antt =====
-- Runs of processor/service.py and api/routes/processor.py.
use nanexus_event_intelligen.Prelude.{◌≡◌, refl, false, none, some, List, [], ◌∷◌}
use nanexus_event_intelligen.Prelude.Sorting.{sorted, insert}
use nanexus_event_intelligen.Core.{Result, ok, err}
use nanexus_event_intelligen.Core.Contracts.ProcessorJob.{
  EvidenceRef, EvidenceType, EvidenceAvailability, PrivacyRoute, PrivacyPolicy, Retention,
  contract_valid, output_types_unique,
}
use nanexus_event_intelligen.Core.Contracts.EnrichmentResult.{
  EnrichmentResult, ResultStatus, ClaimPayload,
}
use nanexus_event_intelligen.Persistence.Models.{ProcessorJob, JobStatus}
use nanexus_event_intelligen.Persistence.Database.{
  Database, empty_database, insert_job, insert_invocation, insert_claim, insert_claim_evidence,
  insert_invocation_evidence, insert_audit,
}
use nanexus_event_intelligen.Processor.Service.{
  JobRequest, job_row, processor_job_idempotency_key, create_processor_job,
}
use nanexus_event_intelligen.Processor.Service.Idempotence.{create_twice}
use mathlib.Core.List.{Permᴰ}
use native.Mathlib.Omega.{arith}
use nanexus_event_intelligen.Prelude.Permutation.{HasDistinctKeys}
use nanexus_event_intelligen.Processor.Service.{evidence_le}
use nanexus_event_intelligen.Processor.Service.EvidenceOrder.{processor_job_idempotency_key_perm}
use nanexus_event_intelligen.Processor.Queue.{started}
use nanexus_event_intelligen.Processor.Submission.{
  SubmitReceipt, submit_result, accept, add_claims, add_claim_evidence, add_invocation_evidence,
  distinct,
}
use nanexus_event_intelligen.Processor.Subject.{job_of}
use nanexus_event_intelligen.Processor.Submission.Grant.{IsGranted, submit_result-IsGranted}
use nanexus_event_intelligen.Tests.Sample.{platform, draws, later_draws, review}

abbrev evidence : EvidenceRef
evidence = record {
  evidence_id = 4;
  media_type = EvidenceType.snapshot;
  privacy_class = PrivacyRoute.local_only;
  availability = EvidenceAvailability.available;
  purpose = "caption";
}

abbrev policy : PrivacyPolicy
policy = record {
  policy_id = "default";
  policy_version = "1";
  route = PrivacyRoute.local_only;
  external_network_allowed = false;
  retention = Retention.keep_none;
}

abbrev request : JobRequest
request = record {
  review_item = review;
  evidence_refs = evidence ∷ [];
  privacy_policy = policy;
  requested_at = none;
  trace_id = none;
}

abbrev job : ProcessorJob
job = job_row platform draws request

abbrev with_job : Database
with_job = record empty_database { processor_jobs = job ∷ [] }

-- The same work, asked for later and with the evidence in the other order.
abbrev two_evidence : JobRequest
two_evidence = record request {
  evidence_refs = evidence ∷ record evidence { evidence_id = 5 } ∷ [];
}

abbrev again : JobRequest
again = record request {
  evidence_refs = record evidence { evidence_id = 5 } ∷ evidence ∷ [];
  requested_at = some 900;
}

abbrev two_jobs : List ProcessorJob
two_jobs = job_row platform draws two_evidence ∷ []

create_twice_example :
    create_processor_job platform later_draws again
      (record empty_database { processor_jobs = two_jobs })
    ≡ ok (job_row platform draws two_evidence, record empty_database { processor_jobs = two_jobs })
unfolding create_processor_job contract_valid sorted insert output_types_unique
    processor_job_idempotency_key insert_job
create_twice_example =
    create_twice platform draws later_draws two_evidence again empty_database
      (record empty_database { processor_jobs = two_jobs }) (job_row platform draws two_evidence)
      refl refl refl (Permᴰ.swap refl refl) distinct_two refl
  where
    distinct_two : HasDistinctKeys evidence_le two_evidence.evidence_refs
    distinct_two = (((λ same. ground arith), tt), (tt, tt))

abbrev caption_result : EnrichmentResult
caption_result = record {
  job_id = job.id;
  idempotency_key = job.idempotency_key;
  contract_version = "1.0";
  status = ResultStatus.succeeded;
  model_invocation = record {
    invocation_id = 90;
    provider = "local";
    model = "m";
    model_version = "1";
    outcome = ResultStatus.succeeded;
    started_at = 300;
    completed_at = 9300;
    privacy_route = PrivacyRoute.local_only;
    external_network_used = false;
  };
  claims =
      record { payload = ClaimPayload.caption "a person"; confidence = none; evidence_ids = 4 ∷ [] }
      ∷ [];
  errors = [];
  completed_at = 9400;
}

abbrev running_job : Database
running_job = record empty_database { processor_jobs = started 200 201 job ∷ [] }

abbrev nothing : SubmitReceipt × Database
nothing = (
  record {
    job_id = 0;
    status = JobStatus.failed;
    accepted = false;
    claim_ids = [];
    evidence_ids = [];
  },
  empty_database,
)

abbrev answer_of : Result (SubmitReceipt × Database) → SubmitReceipt × Database
answer_of (ok answer) = answer
answer_of (err e) = nothing

abbrev answered : SubmitReceipt × Database
answered = answer_of (
    submit_result platform (λ r. "result") "video-summary" later_draws 10 caption_result
      running_job)

submit_result-IsGranted_example :
    (granted : ProcessorJob) × IsGranted 10 caption_result running_job granted
unfolding submit_result accept job_of insert_invocation insert_claim insert_claim_evidence
    insert_invocation_evidence insert_audit add_claims add_claim_evidence add_invocation_evidence
    distinct sorted insert processor_job_idempotency_key
submit_result-IsGranted_example =
    submit_result-IsGranted platform (λ r. "result") "video-summary" later_draws 10 caption_result
      running_job answered.1 answered.0 refl refl

abbrev other_evidence : EvidenceRef
other_evidence = record evidence { evidence_id = 5 }

distinct_evidence : HasDistinctKeys evidence_le (other_evidence ∷ evidence ∷ [])
distinct_evidence = (((λ same. ground arith), tt), (tt, tt))

processor_job_idempotency_key_perm_example :
    processor_job_idempotency_key platform 7 "1" (other_evidence ∷ evidence ∷ []) policy
    ≡ processor_job_idempotency_key platform 7 "1" (evidence ∷ other_evidence ∷ []) policy
processor_job_idempotency_key_perm_example =
    processor_job_idempotency_key_perm platform 7 "1" (other_evidence ∷ evidence ∷ [])
      (evidence ∷ other_evidence ∷ []) policy (Permᴰ.swap refl refl) distinct_evidence
