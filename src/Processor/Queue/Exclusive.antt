-- ===== src/Processor/Queue/Exclusive.antt =====
-- api/routes/processor.py: the job that is handed out.
use nanexus_event_intelligen.Prelude.{
  ◌≡◌, Bool, true, false, Option, none, some, List, [], eqb, update_where, All, Member, string_eq,
}
use nanexus_event_intelligen.Core.{Uuid, Time, Result, ok, err, value_error}
use nanexus_event_intelligen.Core.Contracts.ProcessorJob.{
  contract_valid, ProcessorJob as JobContract,
}
use nanexus_event_intelligen.Persistence.Models.{ProcessorJob}
use nanexus_event_intelligen.Persistence.Database.{Database}
use nanexus_event_intelligen.Processor.Queue.{is_claimable, comes_first, claimable_jobs, started}

-- The job stands in the list and comes before all of it.
abbrev pub IsFirst : ProcessorJob → List ProcessorJob → Type 0
IsFirst job jobs = Member job jobs × All (λ j. comes_first job j ≡ true) jobs

abbrev FirstOrNone : Option ProcessorJob → List ProcessorJob → Type 0
FirstOrNone none jobs = jobs ≡ []
FirstOrNone (some job) jobs = IsFirst job jobs

-- No row with this identifier can be claimed.
abbrev pub IsTaken : Uuid → Time → List ProcessorJob → Type 0
IsTaken id now jobs = All (λ j. j.id ≡ id → is_claimable now j ≡ false) jobs

-- What a call gives: nothing, where no unlocked job may be claimed; otherwise, of the first one by
-- available_at, created_at and id, the payload, or the error of its validation.
abbrev pub Outcome :
    (Uuid → Bool) → Time → Time → Database → Result (Option JobContract × Database) → Type 0
Outcome locked now clock db (ok (none, after)) =
    (claimable_jobs locked now db.processor_jobs ≡ []) × (after ≡ db)
Outcome locked now clock db (ok (some contract, after)) =
    (job : ProcessorJob) × IsFirst job (claimable_jobs locked now db.processor_jobs)
    × (contract_valid job.payload ≡ true)
    × (contract ≡ job.payload)
    × (after ≡ record db {
      processor_jobs = update_where (λ j. eqb j.id job.id) (started now clock) db.processor_jobs;
    })
    × ((later : Time) → IsTaken job.id later after.processor_jobs)
Outcome locked now clock db (err e) =
    (job : ProcessorJob) × IsFirst job (claimable_jobs locked now db.processor_jobs)
    × (contract_valid job.payload ≡ false)
    × (e ≡ value_error "validation error")
