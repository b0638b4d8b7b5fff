-- ===== src/Persistence/Database/Inserts.antt =====
-- `session.add(row)` with its flush, for each table that the handlers write. The tests are the
-- primary keys and the unique constraints of persistence/models.py; that a foreign key names a row and
-- that a text fits its column is not tested.
use nanexus_event_intelligen.Prelude.{
  Bool, false, ◌&&◌, ◌||◌, Option, some, List, eqb, ◌==◌, string_eq,
}
use nanexus_event_intelligen.Core.{Uuid, Result, ok, err}
use nanexus_event_intelligen.Persistence.Models.{
  OutboxEvent, Decision, Action, Notification, AuditRecord, ModelInvocation,
  ModelInvocationEvidence, ProcessorJob, Claim, ClaimEvidence,
}
use nanexus_event_intelligen.Persistence.Database.Tables.{Database, Tx, add_row}

-- A NULL never equals a value.
abbrev pub same_optional : Option Uuid → Option Uuid → Bool
same_optional (some a) (some b) = eqb a b
same_optional _ _ = false

abbrev pub same_decision : Decision → Decision → Bool
same_decision a b = eqb a.id b.id || (eqb a.subject_id b.subject_id && eqb a.revision b.revision)

abbrev pub same_outbox : OutboxEvent → OutboxEvent → Bool
same_outbox a b = eqb a.id b.id || a.dedupe_key == b.dedupe_key

abbrev pub same_action : Action → Action → Bool
same_action a b = eqb a.id b.id || a.idempotency_key == b.idempotency_key

abbrev pub same_notification : Notification → Notification → Bool
same_notification a b =
    eqb a.id b.id || (a.channel == b.channel && a.idempotency_key == b.idempotency_key)

abbrev pub same_job : ProcessorJob → ProcessorJob → Bool
same_job a b = eqb a.id b.id || a.idempotency_key == b.idempotency_key

abbrev pub same_invocation : ModelInvocation → ModelInvocation → Bool
same_invocation a b = eqb a.id b.id || same_optional a.processor_job_id b.processor_job_id

abbrev pub same_claim : Claim → Claim → Bool
same_claim a b = eqb a.id b.id

abbrev pub same_claim_evidence : ClaimEvidence → ClaimEvidence → Bool
same_claim_evidence a b = eqb a.claim_id b.claim_id && eqb a.evidence_id b.evidence_id

abbrev pub same_invocation_evidence : ModelInvocationEvidence → ModelInvocationEvidence → Bool
same_invocation_evidence a b =
    eqb a.model_invocation_id b.model_invocation_id && eqb a.evidence_id b.evidence_id

abbrev pub same_audit : AuditRecord → AuditRecord → Bool
same_audit a b = eqb a.id b.id

-- Store the table that an insert gives.
abbrev pub store :
    {A : Type 0} → (List A → Database) → Result (List A) → Result (Unit {0} × Database)
store put (ok table) = ok (tt, put table)
store put (err e) = err e

unfoldable pub insert_decision : Decision → Tx (Unit {0})
insert_decision row db =
    store (λ t. record db { decisions = t }) (add_row same_decision row db.decisions)

unfoldable pub insert_outbox : OutboxEvent → Tx (Unit {0})
insert_outbox row db =
    store (λ t. record db { outbox_events = t }) (add_row same_outbox row db.outbox_events)

unfoldable pub insert_action : Action → Tx (Unit {0})
insert_action row db = store (λ t. record db { actions = t }) (add_row same_action row db.actions)

unfoldable pub insert_notification : Notification → Tx (Unit {0})
insert_notification row db =
    store (λ t. record db { notifications = t }) (add_row same_notification row db.notifications)

unfoldable pub insert_job : ProcessorJob → Tx (Unit {0})
insert_job row db =
    store (λ t. record db { processor_jobs = t }) (add_row same_job row db.processor_jobs)

unfoldable pub insert_invocation : ModelInvocation → Tx (Unit {0})
insert_invocation row db =
    store (λ t. record db { model_invocations = t })
      (add_row same_invocation row db.model_invocations)

unfoldable pub insert_claim : Claim → Tx (Unit {0})
insert_claim row db = store (λ t. record db { claims = t }) (add_row same_claim row db.claims)

unfoldable pub insert_claim_evidence : ClaimEvidence → Tx (Unit {0})
insert_claim_evidence row db =
    store (λ t. record db { claim_evidence = t })
      (add_row same_claim_evidence row db.claim_evidence)

unfoldable pub insert_invocation_evidence : ModelInvocationEvidence → Tx (Unit {0})
insert_invocation_evidence row db =
    store (λ t. record db { model_invocation_evidence = t })
      (add_row same_invocation_evidence row db.model_invocation_evidence)

unfoldable pub insert_audit : AuditRecord → Tx (Unit {0})
insert_audit row db =
    store (λ t. record db { audit_records = t }) (add_row same_audit row db.audit_records)
