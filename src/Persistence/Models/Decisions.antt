-- ===== src/Persistence/Models/Decisions.antt =====
-- persistence/models.py: decisions, actions, notifications, feedback and the audit trail.
use nanexus_event_intelligen.Prelude.{ℕ, String, Bool, Option, List}
use nanexus_event_intelligen.Core.{Uuid, Time}
use nanexus_event_intelligen.Core.Payload.{Fields}

pub data DecisionOutcome : Type 0 where
  send suppress enrich escalate hold no_action : DecisionOutcome

pub record Decision : Type 0 where
  pub id : Uuid
  pub created_at : Time
  pub subject_type : String
  pub subject_id : Uuid
  pub revision : ℕ
  pub outcome : DecisionOutcome
  pub policy_id : String
  pub policy_version : String
  pub context_snapshot_id : Option Uuid
  pub supersedes_decision_id : Option Uuid
  pub confidence : Option ℕ
  pub reasons : List String
  pub rule_trace : Fields
  pub evidence_unavailable : Bool
  pub degraded : Bool
  pub degraded_reasons : List String

pub data ActionStatus : Type 0 where
  planned running succeeded retryable_failure permanent_failure : ActionStatus

pub record Action : Type 0 where
  pub id : Uuid
  pub created_at : Time
  pub decision_id : Uuid
  pub action_type : String
  pub idempotency_key : String
  pub status : ActionStatus
  pub payload : Fields
  pub attempts : ℕ
  pub last_error : Option String

pub data Stage : Type 0 where
  initial enhanced resolved escalated : Stage

-- `delivery_status` is only ever given the default or the status of the action.
pub record Notification : Type 0 where
  pub id : Uuid
  pub created_at : Time
  pub action_id : Uuid
  pub channel : String
  pub stage : Stage
  pub idempotency_key : String
  pub external_message_id : Option String
  pub delivery_status : ActionStatus

pub data Verdict : Type 0 where
  important not_important false_positive uncertain : Verdict

pub record Feedback : Type 0 where
  pub id : Uuid
  pub created_at : Time
  pub decision_id : Uuid
  pub verdict : Verdict
  pub reason : Option String
  pub actor : String
  pub supersedes_feedback_id : Option Uuid

pub record AuditRecord : Type 0 where
  pub id : Uuid
  pub actor : String
  pub action : String
  pub target_type : String
  pub target_id : Option Uuid
  pub occurred_at : Time
  pub before : Option Fields
  pub after : Option Fields
  pub metadata_json : Fields
