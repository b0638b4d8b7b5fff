-- ===== src/Core/Contracts/ProcessorJob.antt =====
-- core/contracts/processor_job.py: the contract of a processor job and its field validators.
use nanexus_event_intelligen.Prelude.{
  String, Bool, true, false, not, ◌&&◌, List, [], ◌∷◌, length, leb, any, all, ◌==◌, string_eq,
}
use nanexus_event_intelligen.Prelude.Texts.{text_length}
use nanexus_event_intelligen.Core.Values.{Uuid, Time}

-- Each of these enumerations has one member.
pub data SubjectType : Type 0 where
  review_item : SubjectType

pub data EvidenceType : Type 0 where
  snapshot : EvidenceType

pub data EvidenceAvailability : Type 0 where
  available pending expired denied unknown : EvidenceAvailability

pub data PrivacyRoute : Type 0 where
  local_only cloud_redacted cloud_allowed : PrivacyRoute

pub data RequestedOutputType : Type 0 where
  caption tags : RequestedOutputType

pub record EvidenceRef : Type 0 where
  pub evidence_id : Uuid
  pub media_type : EvidenceType
  pub privacy_class : PrivacyRoute
  pub availability : EvidenceAvailability
  pub purpose : String

pub record RequestedOutput : Type 0 where
  pub output_type : RequestedOutputType
  pub schema_version : String
  pub required : Bool

pub data Retention : Type 0 where
  keep_none ephemeral : Retention

pub record PrivacyPolicy : Type 0 where
  pub policy_id : String
  pub policy_version : String
  pub route : PrivacyRoute
  pub external_network_allowed : Bool
  pub retention : Retention

pub record ProcessorJob : Type 0 where
  pub job_id : Uuid
  pub contract_version : String
  pub processor_type : String
  pub subject_type : SubjectType
  pub subject_id : Uuid
  pub subject_revision : String
  pub evidence_refs : List EvidenceRef
  pub requested_outputs : List RequestedOutput
  pub privacy_policy : PrivacyPolicy
  pub idempotency_key : String
  pub requested_at : Time
  pub trace_id : Uuid

abbrev pub is_local_only : PrivacyRoute → Bool
is_local_only local_only = true
is_local_only _ = false

abbrev pub same_route : PrivacyRoute → PrivacyRoute → Bool
same_route local_only local_only = true
same_route cloud_redacted cloud_redacted = true
same_route cloud_allowed cloud_allowed = true
same_route _ _ = false

abbrev same_output : RequestedOutputType → RequestedOutputType → Bool
same_output caption caption = true
same_output tags tags = true
same_output _ _ = false

abbrev pub is_identifier : String → Bool
is_identifier s = leb 1 (text_length s) && leb (text_length s) 255

-- `len(kinds) == len(set(kinds))`
unfoldable pub output_types_unique : List RequestedOutput → Bool
output_types_unique [] = true
output_types_unique (o ∷ os) =
    not (any (λ p. same_output o.output_type p.output_type) os) && output_types_unique os

-- `privacy_route_must_be_consistent`
abbrev pub policy_consistent : PrivacyPolicy → Bool
policy_consistent p = not (is_local_only p.route && p.external_network_allowed)

abbrev evidence_ref_valid : EvidenceRef → Bool
evidence_ref_valid e = is_identifier e.purpose

abbrev policy_valid : PrivacyPolicy → Bool
policy_valid p = is_identifier p.policy_id && is_identifier p.policy_version && policy_consistent p

-- A job that the model's constraints and validators let through. Times are aware by their type.
unfoldable pub contract_valid : ProcessorJob → Bool
contract_valid job =
    job.contract_version == "1.0"
    && is_identifier job.processor_type
    && is_identifier job.subject_revision
    && leb 1 (length job.evidence_refs)
    && leb (length job.evidence_refs) 16
    && all evidence_ref_valid job.evidence_refs
    && leb 1 (length job.requested_outputs)
    && leb (length job.requested_outputs) 16
    && output_types_unique job.requested_outputs
    && policy_valid job.privacy_policy
    && leb 1 (text_length job.idempotency_key)
    && leb (text_length job.idempotency_key) 512
