-- ===== src/Processor/Service/Idempotence.antt =====
-- processor/service.py: a job is created once.
use mathlib.Core.List.{Permᴰ}
use nanexus_event_intelligen.Prelude.Permutation.{HasDistinctKeys}
use nanexus_event_intelligen.Prelude.Sorting.{length-sorted}
use nanexus_event_intelligen.Prelude.{
  String, ◌≡◌, refl, sym, ◌∙◌, length, ap, Bool, true, false, Option, none, some, List, [], ◌∷◌,
  arith, ◌==◌, string_eq, ==_refl, find?-append_new,
}
use nanexus_event_intelligen.Core.{Uuid, ok, Platform, Draws}
use nanexus_event_intelligen.Core.Contracts.ProcessorJob.{EvidenceRef, PrivacyPolicy}
use nanexus_event_intelligen.Persistence.Models.{ProcessorJob}
use nanexus_event_intelligen.Persistence.Database.{Database, insert_job}
use nanexus_event_intelligen.Processor.Service.{
  JobRequest, key_of, find_job, job_row, insert_valid, reuse_or_insert, create,
  create_processor_job, evidence_le, ordered_evidence, processor_job_idempotency_key,
}
use nanexus_event_intelligen.Processor.Service.EvidenceOrder.{sorted-evidence_perm}

insert_valid-found :
    (key : String) (valid : Bool) (row : ProcessorJob) (db db' : Database) (job : ProcessorJob)
    → find_job key db ≡ none
    → (row.idempotency_key == key) ≡ true
    → insert_valid valid row db ≡ ok (job, db')
    → find_job key db' ≡ some job
unfolding insert_job
insert_valid-found key false row db db' job h k e = absurd (ground arith)
insert_valid-found key true row db db' job h k e = ground (
  arith,
  find?-append_new (λ (j : ProcessorJob). j.idempotency_key == key) db.processor_jobs row h k,
)

-- A job that a call returned, created or found, is what another call with the same arguments finds.
reuse_or_insert-found :
    (platform : Platform) (draws : Draws) (q : JobRequest) (found : Option ProcessorJob)
    (db db' : Database) (job : ProcessorJob)
    → find_job (key_of platform q) db ≡ found
    → reuse_or_insert platform draws q found db ≡ ok (job, db')
    → find_job (key_of platform q) db' ≡ some job
reuse_or_insert-found platform draws q (some other) db db' job h e = ground arith
reuse_or_insert-found platform draws q none db db' job h e =
    insert_valid-found (key_of platform q) _ (job_row platform draws q) db db' job h
      (==_refl (key_of platform q)) e

-- The key and the number of references are those of a request for the same work.
create-again :
    (platform : Platform) (draws draws' : Draws) (q q' : JobRequest)
    (evidence evidence' : List EvidenceRef) (db db' : Database) (job : ProcessorJob)
    → length evidence' ≡ length evidence
    → key_of platform q' ≡ key_of platform q
    → create platform draws q evidence db ≡ ok (job, db')
    → create platform draws' q' evidence' db' ≡ ok (job, db')
create-again platform draws draws' q q' [] ys db db' job n k e = absurd (ground arith)
create-again platform draws draws' q q' (x ∷ xs) [] db db' job n k e = absurd (omega (arith, n))
create-again platform draws draws' q q' (x ∷ xs) (y ∷ ys) db db' job n k e =
    ap (λ found. reuse_or_insert platform draws' q' found db')
      (ap (λ key. find_job key db') k
        ∙ reuse_or_insert-found platform draws q (find_job (key_of platform q) db) db db' job refl
            e)

-- A second request, with other identifiers, times and trace, for the same review item, revision and
-- policy and for the same evidence in any order, where no two references name the same evidence,
-- returns the job that the first request returned, and changes nothing.
pub create_twice :
    (platform : Platform) (draws draws' : Draws) (q q' : JobRequest) (db db' : Database)
    (job : ProcessorJob)
    → q'.review_item.id ≡ q.review_item.id
    → q'.review_item.source_revision ≡ q.review_item.source_revision
    → q'.privacy_policy ≡ q.privacy_policy
    → Permᴰ q.evidence_refs q'.evidence_refs
    → HasDistinctKeys evidence_le q.evidence_refs
    → create_processor_job platform draws q db ≡ ok (job, db')
    → create_processor_job platform draws' q' db' ≡ ok (job, db')
unfolding create_processor_job
create_twice platform draws draws' q q' db db' job same_item same_revision same_policy p distinct
      e =
    let ordered = sorted-evidence_perm p distinct in
    let n : length q'.evidence_refs ≡ length q.evidence_refs =
      sym (length-sorted evidence_le q'.evidence_refs)
      ∙ ap length (sym ordered)
      ∙ length-sorted evidence_le q.evidence_refs in
    let keys : key_of platform q' ≡ key_of platform q =
      ap (λ i. key_with i q'.review_item.source_revision (ordered_evidence q') q'.privacy_policy)
        same_item
      ∙ ap (λ r. key_with q.review_item.id r (ordered_evidence q') q'.privacy_policy) same_revision
      ∙ ap (λ es. key_with q.review_item.id q.review_item.source_revision es q'.privacy_policy)
          (sym ordered)
      ∙ ap (key_with q.review_item.id q.review_item.source_revision (ordered_evidence q))
          same_policy in
    create-again platform draws draws' q q' q.evidence_refs q'.evidence_refs db db' job n keys e
  where
    key_with : Uuid → String → List EvidenceRef → PrivacyPolicy → String
    key_with = processor_job_idempotency_key platform
