-- ===== src/Processor/Queue.antt =====
-- api/routes/processor.py: the next job. Rows that another transaction has locked are skipped.
pub mod Exclusive
use nanexus_event_intelligen.Prelude.{
  ℕ, ◌+◌, String, ◌≡◌, refl, sym, Bool, true, false, not, ◌&&◌, ◌||◌, Option, none, some, List, [],
  ◌∷◌, arith, eqb, leb, ltb, filter, update_where, All, Member, if◌then◌else◌,
}
use nanexus_event_intelligen.Core.{Uuid, Time, Result, ok, err, value_error}
use nanexus_event_intelligen.Core.Contracts.ProcessorJob.{
  contract_valid, ProcessorJob as JobContract,
}
use nanexus_event_intelligen.Persistence.Models.{
  ProcessorJob, JobStatus, pending, retry_wait, running,
}
use nanexus_event_intelligen.Persistence.Database.{
  Database, Tx, pure, raise_if, gets, modify, ◌>>=◌, ◌>>◌,
}

abbrev pub is_waiting : JobStatus → Bool
is_waiting pending = true
is_waiting retry_wait = true
is_waiting _ = false

abbrev pub is_claimable : Time → ProcessorJob → Bool
is_claimable now job = is_waiting job.status && leb job.available_at now

-- `ORDER BY available_at, created_at, id`
abbrev pub comes_first : ProcessorJob → ProcessorJob → Bool
comes_first a b =
    ltb a.available_at b.available_at
    || (eqb a.available_at b.available_at
        && (ltb a.created_at b.created_at || (eqb a.created_at b.created_at && leb a.id b.id)))

abbrev pub first_of : ProcessorJob → Option ProcessorJob → ProcessorJob
first_of job none = job
first_of job (some other) = if comes_first job other then job else other

-- `LIMIT 1` in that order.
unfoldable pub first_job : List ProcessorJob → Option ProcessorJob
first_job [] = none
first_job (job ∷ jobs) = some (first_of job (first_job jobs))

abbrev pub claimable_jobs : (Uuid → Bool) → Time → List ProcessorJob → List ProcessorJob
claimable_jobs locked now jobs = filter (λ job. is_claimable now job && not (locked job.id)) jobs

-- The clock gives the `updated_at` of the UPDATE.
abbrev pub started : Time → Time → ProcessorJob → ProcessorJob
started now clock job = record job {
  status = running;
  attempt_count = job.attempt_count + 1;
  started_at = some now;
  updated_at = clock;
}

-- `JobContract.model_validate(job.payload)` runs the contract's validators on the payload of the row.
abbrev pub take : Time → Time → Option ProcessorJob → Tx (Option JobContract)
take now clock none = pure none
take now clock (some job) = do
  raise_if (not (contract_valid job.payload)) (value_error "validation error")
  modify (λ db. record db {
    processor_jobs = update_where (λ j. eqb j.id job.id) (started now clock) db.processor_jobs;
  })
  pure (some job.payload)

unfoldable pub next_job : (Uuid → Bool) → Time → Time → Tx (Option JobContract)
next_job locked now clock = do
  job ← gets (λ db. first_job (claimable_jobs locked now db.processor_jobs))
  take now clock job
