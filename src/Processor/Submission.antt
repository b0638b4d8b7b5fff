-- ===== src/Processor/Submission.antt =====
-- api/routes/processor.py: a processor gives back the result of a job.
pub mod Rows
pub mod Grant
use nanexus_event_intelligen.Prelude.{
  ℕ, suc, ◌+◌, String, Bool, true, false, not, ◌&&◌, ◌||◌, Option, none, some, List, [], ◌∷◌, ◌++◌,
  map, length, eqb, leb, ◌==◌, string_eq, find?, filter, any, all, update_where, if◌then◌else◌,
}
use nanexus_event_intelligen.Prelude.Sorting.{sorted}
use nanexus_event_intelligen.Core.{Uuid, Time, Result, ok, err, http_exception, Platform, Draws}
use nanexus_event_intelligen.Core.Contracts.ProcessorJob.{PrivacyRoute, same_route, EvidenceRef}
use nanexus_event_intelligen.Core.Contracts.EnrichmentResult.{EnrichmentResult, Claim as WireClaim}
use nanexus_event_intelligen.Persistence.Models.{
  ProcessorJob, JobStatus, ModelInvocation, ModelInvocationEvidence, Claim,
}
use nanexus_event_intelligen.Persistence.Database.{
  Database, Tx, pure, raise, gets, modify, raise_if, insert_invocation, insert_claim,
  insert_claim_evidence, insert_invocation_evidence, insert_audit, ◌>>=◌, ◌>>◌,
}
use nanexus_event_intelligen.Processor.Subject.{job_of}
use Rows.{invocation_row, claim_row, audit_row, finished, job_status}

pub record SubmitReceipt : Type 0 where
  pub job_id : Uuid
  pub status : JobStatus
  pub accepted : Bool
  pub claim_ids : List Uuid
  pub evidence_ids : List Uuid

abbrev pub is_running : JobStatus → Bool
is_running JobStatus.running = true
is_running _ = false

-- `{item.evidence_id for item in contract.evidence_refs}`
abbrev pub granted_ids : ProcessorJob → List Uuid
granted_ids job = map (λ (e : EvidenceRef). e.evidence_id) job.payload.evidence_refs

-- The list without the elements that come again later in it.
unfoldable pub distinct : List Uuid → List Uuid
distinct [] = []
distinct (x ∷ xs) = if any (eqb x) xs then distinct xs else x ∷ distinct xs

abbrev all_ids : List WireClaim → List Uuid
all_ids [] = []
all_ids (claim ∷ claims) = claim.evidence_ids ++ all_ids claims

-- `sorted({item for claim in result.claims for item in claim.evidence_ids}, key=str)`
abbrev pub submitted_ids : EnrichmentResult → List Uuid
submitted_ids result = sorted leb (distinct (all_ids result.claims))

abbrev pub invocation_for : Uuid → Database → Option ModelInvocation
invocation_for job_id db =
    find?
      (λ (i : ModelInvocation). elim i.processor_job_id [ none ↦ false | some id ↦ eqb id job_id ])
      db.model_invocations

abbrev is_claim_of : Uuid → Claim → Bool
is_claim_of invocation_id claim = elim claim.model_invocation_id [
  | none ↦ false
  | some id ↦ eqb id invocation_id
]

abbrev pub claim_ids_of : Uuid → Database → List Uuid
claim_ids_of invocation_id db =
    map (λ (c : Claim). c.id) (filter (is_claim_of invocation_id) db.claims)

abbrev pub evidence_ids_of : Uuid → Database → List Uuid
evidence_ids_of invocation_id db =
    map (λ (e : ModelInvocationEvidence). e.evidence_id)
      (filter (λ (e : ModelInvocationEvidence). eqb e.model_invocation_id invocation_id)
        db.model_invocation_evidence)

-- What the result was answered with, read back from the tables.
abbrev pub repeat_receipt : ProcessorJob → ModelInvocation → Database → SubmitReceipt
repeat_receipt job invocation db = record {
  job_id = job.id;
  status = job.status;
  accepted = false;
  claim_ids = claim_ids_of invocation.id db;
  evidence_ids = sorted leb (evidence_ids_of invocation.id db);
}

unfoldable pub add_claim_evidence : Uuid → List Uuid → Tx (Unit {0})
add_claim_evidence claim_id [] = pure tt
add_claim_evidence claim_id (e ∷ es) = do
  insert_claim_evidence (record { claim_id = claim_id; evidence_id = e })
  add_claim_evidence claim_id es

unfoldable pub add_invocation_evidence : Uuid → List Uuid → Tx (Unit {0})
add_invocation_evidence invocation_id [] = pure tt
add_invocation_evidence invocation_id (e ∷ es) = do
  insert_invocation_evidence (record { model_invocation_id = invocation_id; evidence_id = e })
  add_invocation_evidence invocation_id es

-- The loop over the claims, with the number of the next draw: the identifiers of the new rows.
unfoldable pub add_claims :
    Draws → ProcessorJob → EnrichmentResult → ℕ → List WireClaim → Tx (List Uuid)
add_claims draws job result n [] = pure []
add_claims draws job result n (wire ∷ claims) = do
  insert_claim (claim_row draws job result n wire)
  add_claim_evidence (draws.id n) wire.evidence_ids
  ids ← add_claims draws job result (n + 1) claims
  pure (draws.id n ∷ ids)

-- The parameters: `result.model_dump_json()`, and the identity of the caller.
module _ (platform : Platform) (dump_result : EnrichmentResult → String) (actor : String)
    (draws : Draws) where
  -- Everything that an accepted result writes.
  unfoldable pub accept : ProcessorJob → EnrichmentResult → Tx SubmitReceipt
  accept job result = do
    insert_invocation (invocation_row platform dump_result draws job result)
    claim_ids ← add_claims draws job result 1 result.claims
    add_invocation_evidence (draws.id 0) (submitted_ids result)
    modify (λ db. record db {
      processor_jobs =
          update_where (λ (j : ProcessorJob). eqb j.id job.id)
            (finished result (draws.now (2 + length result.claims))) db.processor_jobs;
    })
    insert_audit (audit_row platform draws actor job result (1 + length result.claims))
    pure (record {
      job_id = job.id;
      status = job_status result.status;
      accepted = true;
      claim_ids = claim_ids;
      evidence_ids = submitted_ids result;
    })

  abbrev pub check_and_accept : ProcessorJob → EnrichmentResult → Tx SubmitReceipt
  check_and_accept job result = do
    raise_if (not (is_running job.status)) (http_exception 409 "processor job is not running")
    raise_if (not (all (λ e. any (eqb e) (granted_ids job)) (submitted_ids result)))
        (http_exception 403 "claim evidence is outside this job grant")
    let facts = result.model_invocation
    let policy = job.payload.privacy_policy
    raise_if (not (same_route facts.privacy_route policy.route))
        (http_exception 409 "result privacy route violates job policy")
    raise_if (facts.external_network_used && not policy.external_network_allowed)
        (http_exception 409 "external network use violates job policy")
    accept job result

  abbrev pub respond : ProcessorJob → EnrichmentResult → Option ModelInvocation → Tx SubmitReceipt
  respond job result (some invocation) = gets (repeat_receipt job invocation)
  respond job result none = check_and_accept job result

  unfoldable pub submit_result : Uuid → EnrichmentResult → Tx SubmitReceipt
  submit_result job_id result = do
    job ← job_of job_id
    raise_if (not (eqb result.job_id job.id && result.idempotency_key == job.idempotency_key))
        (http_exception 409 "result does not match processor job")
    existing ← gets (invocation_for job.id)
    respond job result existing
