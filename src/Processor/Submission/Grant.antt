-- ===== src/Processor/Submission/Grant.antt =====
-- api/routes/processor.py: what an accepted result was checked against.
use nanexus_event_intelligen.Prelude.{
  not-eq_false, and_not-eq_false, &&-eq-true, String, ◌≡◌, ◌==◌, text_iff, eqb_iff, refl, true,
  Option, none, some, arith, eqb, string_eq, any, all, find?,
}
use nanexus_event_intelligen.Core.{Uuid, ok, Platform, Draws}
use nanexus_event_intelligen.Core.Contracts.ProcessorJob.{same_route}
use nanexus_event_intelligen.Core.Contracts.EnrichmentResult.{EnrichmentResult}
use nanexus_event_intelligen.Persistence.Models.{ProcessorJob, ModelInvocation}
use nanexus_event_intelligen.Persistence.Database.{Database, raise_if-passed, or_raise-passed}
use nanexus_event_intelligen.Processor.Subject.{job_of}
use nanexus_event_intelligen.Processor.Submission.{
  SubmitReceipt, is_running, granted_ids, submitted_ids, invocation_for, check_and_accept, respond,
  submit_result,
}

-- The job may be answered by this result.
pub record IsGranted (job_id : Uuid) (result : EnrichmentResult) (db : Database)
    (job : ProcessorJob) : Type 0 where
  pub found : find? (λ (j : ProcessorJob). eqb j.id job_id) db.processor_jobs ≡ some job
  pub same_job : result.job_id ≡ job.id
  pub same_key : result.idempotency_key ≡ job.idempotency_key
  pub running : is_running job.status ≡ true
  pub first : invocation_for job.id db ≡ none
  pub evidence : all (λ e. any (eqb e) (granted_ids job)) (submitted_ids result) ≡ true
  pub route :
      same_route result.model_invocation.privacy_route job.payload.privacy_policy.route ≡ true
  pub network :
      result.model_invocation.external_network_used ≡ true
      → job.payload.privacy_policy.external_network_allowed ≡ true

module _ (platform : Platform) (dump_result : EnrichmentResult → String) (actor : String)
    (draws : Draws) where
  -- What the guards let through.
  check_and_accept-checks :
      (job : ProcessorJob) (result : EnrichmentResult) (db : Database)
      (answer : SubmitReceipt × Database)
      → check_and_accept platform dump_result actor draws job result db ≡ ok answer
      → (is_running job.status ≡ true)
        × (all (λ e. any (eqb e) (granted_ids job)) (submitted_ids result) ≡ true)
        × (same_route result.model_invocation.privacy_route job.payload.privacy_policy.route ≡ true)
        × (result.model_invocation.external_network_used ≡ true
            → job.payload.privacy_policy.external_network_allowed ≡ true)
  check_and_accept-checks job result db answer e =
      let (running, e1) = raise_if-passed _ _ _ db answer e in
      let (evidence, e2) = raise_if-passed _ _ _ db answer e1 in
      let (route, e3) = raise_if-passed _ _ _ db answer e2 in
      let (network, e4) = raise_if-passed _ _ _ db answer e3 in
      (
        not-eq_false _ running,
        not-eq_false _ evidence,
        not-eq_false _ route,
        and_not-eq_false _ _ network,
      )

  respond-first :
      (job : ProcessorJob) (result : EnrichmentResult) (found : Option ModelInvocation)
      (db db' : Database) (receipt : SubmitReceipt)
      → respond platform dump_result actor draws job result found db ≡ ok (receipt, db')
      → receipt.accepted ≡ true
      → found ≡ none
  respond-first job result none db db' receipt e a = refl
  respond-first job result (some i) db db' receipt e a = absurd (ground arith)

  -- The guards in front of the answer.
  submit_result-job :
      (job_id : Uuid) (result : EnrichmentResult) (db : Database)
      (answer : SubmitReceipt × Database)
      → submit_result platform dump_result actor draws job_id result db ≡ ok answer
      → (job : ProcessorJob) × (find? (λ (j : ProcessorJob). eqb j.id job_id) db.processor_jobs
          ≡ some job)
        × (eqb result.job_id job.id ≡ true)
        × ((result.idempotency_key == job.idempotency_key) ≡ true)
        × (respond platform dump_result actor draws job result (invocation_for job.id db) db
            ≡ ok answer)
  unfolding submit_result job_of
  submit_result-job job_id result db answer e =
      let (job, found, guarded) =
        or_raise-passed (find? (λ (j : ProcessorJob). eqb j.id job_id) db.processor_jobs) _ _ db
          answer e in
      let (same, answered) = raise_if-passed _ _ _ db answer guarded in
      let both = &&-eq-true _ _ (not-eq_false _ same) in (job, found, both.0, both.1, answered)

  -- A result is accepted only for a job that is there and running, that has had no result before,
  -- and that it names by its id and its idempotency key; all evidence that its claims name is
  -- granted by the job, its privacy route is the job's, and it used the external network only if
  -- the job allows that. An accepted result is one whose receipt says so.
  pub submit_result-IsGranted :
      (job_id : Uuid) (result : EnrichmentResult) (db db' : Database) (receipt : SubmitReceipt)
      → submit_result platform dump_result actor draws job_id result db ≡ ok (receipt, db')
      → receipt.accepted ≡ true
      → (job : ProcessorJob) × IsGranted job_id result db job
  submit_result-IsGranted job_id result db db' receipt e a =
      let (job, found, same_id, same_key, answered) =
        submit_result-job job_id result db (receipt, db') e in
      let first = respond-first job result (invocation_for job.id db) db db' receipt answered a in
      let checks = check_and_accept-checks job result db (receipt, db') (rw first at answered) in
      (
        job,
        record {
          found = found;
          same_job = (eqb_iff result.job_id job.id).0 same_id;
          same_key = (text_iff result.idempotency_key job.idempotency_key).0 same_key;
          running = checks.0;
          first = first;
          evidence = checks.1;
          route = checks.2;
          network = checks.3;
        },
      )
