-- ===== src/Processor/Service/EvidenceOrder.antt =====
-- processor/service.py: the order in which the evidence is listed.
use mathlib.Core.List.{Permᴰ}
use nanexus_event_intelligen.Prelude.{◌≡◌, ap, true, ◌||◌, List, String, arith}
use nanexus_event_intelligen.Prelude.Permutation.{HasDistinctKeys, sorted-eq_of_perm}
use nanexus_event_intelligen.Prelude.Sorting.{sorted}
use nanexus_event_intelligen.Core.{Uuid, Platform}
use nanexus_event_intelligen.Core.Contracts.ProcessorJob.{EvidenceRef, PrivacyPolicy}
use nanexus_event_intelligen.Processor.Service.{
  evidence_le, key_of_sorted, processor_job_idempotency_key,
}

evidence_le_total : (a b : EvidenceRef) → (evidence_le a b || evidence_le b a) ≡ true
evidence_le_total a b = ground arith

evidence_le_trans :
    (a b c : EvidenceRef) → evidence_le a b ≡ true → evidence_le b c ≡ true → evidence_le a c ≡ true
evidence_le_trans a b c h k = ground arith

pub sorted-evidence_perm :
    {evidence evidence' : List EvidenceRef}
    → Permᴰ evidence evidence'
    → HasDistinctKeys evidence_le evidence
    → sorted evidence_le evidence ≡ sorted evidence_le evidence'
sorted-evidence_perm p h = sorted-eq_of_perm evidence_le evidence_le_total evidence_le_trans p h

-- The idempotency key of a job does not depend on the order in which the evidence is listed, where no
-- two references name the same evidence.
pub processor_job_idempotency_key_perm :
    (platform : Platform) (review_item_id : Uuid) (revision : String)
    (evidence evidence' : List EvidenceRef) (policy : PrivacyPolicy)
    → Permᴰ evidence evidence'
    → HasDistinctKeys evidence_le evidence
    → processor_job_idempotency_key platform review_item_id revision evidence policy
      ≡ processor_job_idempotency_key platform review_item_id revision evidence' policy
unfolding processor_job_idempotency_key
processor_job_idempotency_key_perm platform review_item_id revision evidence evidence' policy p h =
    ap (key_of_sorted platform review_item_id revision policy) (sorted-evidence_perm p h)
