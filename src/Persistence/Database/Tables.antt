-- ===== src/Persistence/Database/Tables.antt =====
-- The tables, each in the order of insertion, and the transaction monad.
use nanexus_event_intelligen.Prelude.{
  ◌≡◌, refl, arith, Bool, true, false, Option, none, some, List, [], ◌∷◌, ◌++◌, any, if◌then◌else◌,
}
use nanexus_event_intelligen.Core.{Error, integrity_error, Result, ok, err}
use nanexus_event_intelligen.Persistence.Models.{
  SourceInstance, Camera, SourceEntityMap, RawSourceMessage, IngestCheckpoint, Observation,
  ReviewItem, ReviewObservation, ObservedObject, Evidence, OutboxEvent, Decision, Action,
  Notification, Feedback, AuditRecord, ModelInvocationEvidence, ModelInvocation, ProcessorJob,
  Claim, ClaimEvidence,
}

pub record Database : Type 0 where
  pub source_instances : List SourceInstance
  pub cameras : List Camera
  pub source_entity_maps : List SourceEntityMap
  pub raw_source_messages : List RawSourceMessage
  pub ingest_checkpoints : List IngestCheckpoint
  pub observations : List Observation
  pub review_items : List ReviewItem
  pub review_observations : List ReviewObservation
  pub observed_objects : List ObservedObject
  pub evidence : List Evidence
  pub outbox_events : List OutboxEvent
  pub decisions : List Decision
  pub actions : List Action
  pub notifications : List Notification
  pub feedback : List Feedback
  pub audit_records : List AuditRecord
  pub processor_jobs : List ProcessorJob
  pub model_invocations : List ModelInvocation
  pub model_invocation_evidence : List ModelInvocationEvidence
  pub claims : List Claim
  pub claim_evidence : List ClaimEvidence

abbrev pub empty_database : Database
empty_database = record {
  source_instances = [];
  cameras = [];
  source_entity_maps = [];
  raw_source_messages = [];
  ingest_checkpoints = [];
  observations = [];
  review_items = [];
  review_observations = [];
  observed_objects = [];
  evidence = [];
  outbox_events = [];
  decisions = [];
  actions = [];
  notifications = [];
  feedback = [];
  audit_records = [];
  processor_jobs = [];
  model_invocations = [];
  model_invocation_evidence = [];
  claims = [];
  claim_evidence = [];
}

-- The statements of one transaction: what they return and the tables that they leave, or the
-- exception that leaves the block.
abbrev pub Tx : Type 0 → Type 0
Tx A = Database → Result (A × Database)

module _ {A : Type 0} where
  abbrev pub pure : A → Tx A
  pure a db = ok (a, db)

  abbrev pub raise : Error → Tx A
  raise e db = err e

  -- A query.
  abbrev pub gets : (Database → A) → Tx A
  gets f db = ok (f db, db)

  abbrev pub or_raise : Option A → Error → Tx A
  or_raise none e = raise e
  or_raise (some a) e = pure a

  -- `async with session.begin()`: commit, or roll back.
  abbrev pub transact : Tx A → Database → Result A × Database
  transact m db = elim (m db) [ ok (a, db') ↦ (ok a, db') | err e ↦ (err e, db) ]

infixl 5 ◌>>=◌ ◌>>◌
abbrev pub ◌>>=◌ : {A B : Type 0} → Tx A → (A → Tx B) → Tx B
◌>>=◌ m f db = elim (m db) [ ok (a, db') ↦ f a db' | err e ↦ err e ]

abbrev pub ◌>>◌ : {A B : Type 0} → Tx A → Tx B → Tx B
m >> k = m >>= λ _. k

abbrev pub modify : (Database → Database) → Tx (Unit {0})
modify f db = ok (tt, f db)

-- `if c: raise e`
abbrev pub raise_if : Bool → Error → Tx (Unit {0})
raise_if c e db = if c then err e else ok (tt, db)

-- A block that ends well has passed its guard.
pub raise_if-passed :
    {B : Type 0} (c : Bool) (e : Error) (rest : Tx B) (db : Database) (answer : B × Database)
    → (raise_if c e >> rest) db ≡ ok answer
    → (c ≡ false) × (rest db ≡ ok answer)
raise_if-passed true e rest db answer h = absurd (ground arith)
raise_if-passed false e rest db answer h = (refl, h)

-- A block that ends well has found its row.
pub or_raise-passed :
    {A B : Type 0} (found : Option A) (e : Error) (rest : A → Tx B) (db : Database)
    (answer : B × Database)
    → (or_raise found e >>= rest) db ≡ ok answer
    → (a : A) × (found ≡ some a) × (rest a db ≡ ok answer)
or_raise-passed none e rest db answer h = absurd (ground arith)
or_raise-passed (some a) e rest db answer h = (a, refl, h)

-- An INSERT: refused where a row with the same value of a unique key is there.
abbrev pub add_row : {A : Type 0} → (A → A → Bool) → A → List A → Result (List A)
add_row same row table =
    if any (same row) table then err integrity_error else ok (table ++ row ∷ [])
