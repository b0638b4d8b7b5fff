-- ===== src/Core/Contracts/EnrichmentResult.antt =====
-- core/contracts/enrichment_result.py: the contract of a processor's result and its validators.
use nanexus_event_intelligen.Prelude.{
  ℕ, String, Bool, true, false, not, ◌&&◌, ◌||◌, Option, none, some, List, [], ◌∷◌, length, leb,
  ltb, all, ◌==◌, contains, string_eq,
}
use nanexus_event_intelligen.Prelude.Texts.{text_length}
use nanexus_event_intelligen.Core.Values.{Uuid, Time}
use nanexus_event_intelligen.Core.Contracts.ProcessorJob.{
  PrivacyRoute, is_local_only, is_identifier,
}

pub data ResultStatus : Type 0 where
  succeeded abstained failed : ResultStatus

-- `PrivacyRoute` of this contract has the members of the job contract's.
pub record ModelInvocationFacts : Type 0 where
  pub invocation_id : Uuid
  pub provider : String
  pub model : String
  pub model_version : String
  pub outcome : ResultStatus
  pub started_at : Time
  pub completed_at : Time
  pub privacy_route : PrivacyRoute
  pub external_network_used : Bool

-- The discriminated union of `CaptionClaim` and `TagsClaim`: the shared fields, and the payload. A
-- confidence is in millionths.
pub data ClaimPayload : Type 0 where
  caption : String → ClaimPayload
  tags : List String → ClaimPayload

pub record Claim : Type 0 where
  pub payload : ClaimPayload
  pub confidence : Option ℕ
  pub evidence_ids : List Uuid

pub record ResultError : Type 0 where
  pub code : String
  pub reason : String
  pub retryable : Bool

pub record EnrichmentResult : Type 0 where
  pub job_id : Uuid
  pub idempotency_key : String
  pub contract_version : String
  pub status : ResultStatus
  pub model_invocation : ModelInvocationFacts
  pub claims : List Claim
  pub errors : List ResultError
  pub completed_at : Time

abbrev pub same_status : ResultStatus → ResultStatus → Bool
same_status succeeded succeeded = true
same_status abstained abstained = true
same_status failed failed = true
same_status _ _ = false

abbrev pub is_short_text : String → Bool
is_short_text s = leb 1 (text_length s) && leb (text_length s) 1024

abbrev pub is_empty : {A : Type 0} → List A → Bool
is_empty [] = true
is_empty (x ∷ xs) = false

-- `len(value) == len(set(value))`
tags_unique : List String → Bool
tags_unique [] = true
tags_unique (t ∷ ts) = not (contains ts t) && tags_unique ts

payload_valid : ClaimPayload → Bool
unfolding tags_unique
payload_valid (caption t) = is_short_text t
payload_valid (tags ts) =
    leb 1 (length ts) && leb (length ts) 64 && all is_identifier ts && tags_unique ts

confidence_valid : Option ℕ → Bool
confidence_valid none = true
confidence_valid (some c) = leb c 1000000

unfoldable pub claim_valid : Claim → Bool
unfolding payload_valid confidence_valid
claim_valid c =
    payload_valid c.payload
    && confidence_valid c.confidence
    && leb 1 (length c.evidence_ids)
    && leb (length c.evidence_ids) 16

unfoldable pub error_valid : ResultError → Bool
error_valid e = is_identifier e.code && is_short_text e.reason

-- The fields' constraints and `invocation_is_consistent`.
unfoldable pub invocation_valid : ModelInvocationFacts → Bool
invocation_valid f =
    is_identifier f.provider
    && is_identifier f.model
    && is_identifier f.model_version
    && not (ltb f.completed_at f.started_at)
    && not (is_local_only f.privacy_route && f.external_network_used)

-- The three branches of `status_payload_must_be_consistent` on claims and errors.
unfoldable pub payload_consistent : ResultStatus → Bool → Bool → Bool
payload_consistent succeeded no_claims no_errors = not (no_claims || not no_errors)
payload_consistent abstained no_claims no_errors = not (not no_claims || no_errors)
payload_consistent failed no_claims no_errors = not (not no_claims || no_errors)

unfoldable pub status_consistent : EnrichmentResult → Bool
unfolding payload_consistent
status_consistent r =
    same_status r.model_invocation.outcome r.status
    && not (ltb r.completed_at r.model_invocation.completed_at)
    && payload_consistent r.status (is_empty r.claims) (is_empty r.errors)

-- A result that the API's validation lets through. Times are aware by their type.
unfoldable pub result_valid : EnrichmentResult → Bool
result_valid r =
    leb 1 (text_length r.idempotency_key)
    && leb (text_length r.idempotency_key) 512
    && r.contract_version == "1.0"
    && invocation_valid r.model_invocation
    && leb (length r.claims) 16
    && all claim_valid r.claims
    && leb (length r.errors) 16
    && all error_valid r.errors
    && status_consistent r
