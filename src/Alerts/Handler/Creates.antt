-- ===== src/Alerts/Handler/Creates.antt =====
-- alerts/handler.py: the rows that a first delivery creates.
use nanexus_event_intelligen.Prelude.{
  ℕ, ◌+◌, ◌≤◌, ◌<◌, String, ◌≡◌, ◌≢◌, refl, true, false, none, some, List, [], ◌∷◌, ◌++◌, arith,
  ◌==◌, string_eq, any, find?, All,
}
use nanexus_event_intelligen.Core.{Uuid, ok, Platform, Draws}
use nanexus_event_intelligen.Core.Payload.{Fields, get, as_dict, as_text}
use nanexus_event_intelligen.Persistence.Models.{Observation, Decision, OutboxEvent}
use nanexus_event_intelligen.Persistence.Database.{
  Database, same_decision, same_outbox, insert_decision, insert_outbox,
}
use nanexus_event_intelligen.Pipeline.Envelope.{StreamEnvelope}
use nanexus_event_intelligen.Alerts.Models.{ShadowPolicy, AlertFact}
use nanexus_event_intelligen.Alerts.Evaluator.{key_le, evaluate}
use nanexus_event_intelligen.Alerts.Handler.Idempotence.{walk-policy_id}
use nanexus_event_intelligen.Prelude.Sorting.{sorted}
use nanexus_event_intelligen.Alerts.Handler.Dump.{outcome_text}
use nanexus_event_intelligen.Alerts.Handler.{
  find_observation, to_column, is_decision_for, latest_revision, fact_of, decision_row, outbox_row,
  decide, handle,
}

-- The envelope announces an observation of the database.
pub record Announces (platform : Platform) (envelope : StreamEnvelope) (db : Database)
    (o : Observation) : Type 0 where
  pub event : Fields
  pub source_id : String
  pub dedupe_key : String
  pub source : Uuid
  pub kind : (envelope.event_type == "canonical.observation.persisted") ≡ true
  pub has_event : as_dict (get "event" envelope.payload) ≡ some event
  pub has_source_id : as_text (get "source_instance_id" event) ≡ some source_id
  pub has_dedupe_key : as_text (get "dedupe_key" event) ≡ some dedupe_key
  pub parsed : platform.parse_uuid source_id ≡ some source
  pub found : find_observation source dedupe_key db ≡ some o

-- One more than the greatest revision about the subject is taken by no decision about it.
next_revision_free :
    (row : Decision) (m : ℕ) (ds : List Decision)
    → latest_revision row.subject_id ds ≤ m
    → row.revision ≡ m + 1
    → All (λ d. d.id ≢ row.id) ds
    → any (same_decision row) ds ≡ false
unfolding latest_revision
next_revision_free row m [] le e fresh = refl
next_revision_free row m (d ∷ ds) le e fresh =
    ground (arith, next_revision_free row m ds, fresh.0, fresh.1)

-- The identifiers drawn are new, and no event carries the decision's key.
pub record IsFresh (platform : Platform) (policy : ShadowPolicy) (draws : Draws) (o : Observation)
    (db : Database) : Type 0 where
  pub decision_id : All (λ (d : Decision). d.id ≢ draws.id 0) db.decisions
  pub outbox :
      any
        (same_outbox (outbox_row platform draws o (evaluate policy (fact_of o db))))
        db.outbox_events
      ≡ false

abbrev pub with_decision : Platform → ShadowPolicy → Draws → Observation → Database → Database
with_decision platform policy draws o db =
    let result = evaluate policy (fact_of o db) in
    record db {
      decisions =
          db.decisions ++ decision_row draws o result (latest_revision o.id db.decisions + 1) ∷ [];
      outbox_events = db.outbox_events ++ outbox_row platform draws o result ∷ [];
    }

module _ (platform : Platform) (policy : ShadowPolicy) (draws : Draws) (o : Observation)
    (db : Database) where
  decide_creates :
      find? (is_decision_for policy o.id) db.decisions ≡ none
      → IsFresh platform policy draws o db
      → decide platform policy draws o db ≡ ok (tt, with_decision platform policy draws o db)
  unfolding decide insert_decision insert_outbox
  decide_creates new fresh = ground (
    arith,
    next_revision_free
        (decision_row draws o (evaluate policy (fact_of o db))
          (latest_revision o.id db.decisions + 1))
        (latest_revision o.id db.decisions) db.decisions,
    fresh.decision_id,
    fresh.outbox,
  )

next_revision_greater :
    (subject m : ℕ) (ds : List Decision)
    → latest_revision subject ds ≤ m
    → All (λ d. d.subject_id ≡ subject → d.revision < m + 1) ds
unfolding latest_revision
next_revision_greater subject m [] le = tt
next_revision_greater subject m (d ∷ ds) le = ground (arith, next_revision_greater subject m ds)

evaluate-policy :
    (policy : ShadowPolicy) (fact : AlertFact)
    → ((evaluate policy fact).policy_id ≡ policy.policy_id)
      × ((evaluate policy fact).policy_version ≡ policy.version)
unfolding evaluate
evaluate-policy policy fact = walk-policy_id policy fact [] (sorted key_le policy.rules)

pub handle-with_decision :
    (platform : Platform) (policy : ShadowPolicy) (draws : Draws) (envelope : StreamEnvelope)
    (o : Observation) (db : Database)
    → Announces platform envelope db o
    → find? (is_decision_for policy o.id) db.decisions ≡ none
    → IsFresh platform policy draws o db
    → handle platform policy draws envelope db ≡ ok (tt, with_decision platform policy draws o db)
unfolding handle
handle-with_decision platform policy draws envelope o db a new fresh =
    ground (arith, decide_creates platform policy draws o db new fresh)

-- The first delivery of a message about an observation, with new identifiers, raises nothing: it
-- appends one decision and one outbox event, and changes no other table. The decision is about the
-- observation, has the outcome, the policy and the reasons of the evaluation of its facts, and its
-- revision is greater than that of every decision about the observation. The event is not published
-- yet; it announces the creation of that decision, and its payload names the decision, the observation
-- and the outcome.
pub handle_creates :
    (platform : Platform) (policy : ShadowPolicy) (draws : Draws) (envelope : StreamEnvelope)
    (o : Observation) (db : Database)
    → Announces platform envelope db o
    → find? (is_decision_for policy o.id) db.decisions ≡ none
    → IsFresh platform policy draws o db
    → let result = evaluate policy (fact_of o db) in
      (d : Decision) × (e : OutboxEvent) × (handle platform policy draws envelope db
        ≡ ok (
          tt,
          record db {
            decisions = db.decisions ++ d ∷ [];
            outbox_events = db.outbox_events ++ e ∷ [];
          },
        ))
      × (d.subject_type ≡ "observation")
      × (d.subject_id ≡ o.id)
      × (d.outcome ≡ to_column result.outcome)
      × (d.policy_id ≡ policy.policy_id)
      × (d.policy_version ≡ policy.version)
      × (d.reasons ≡ result.reasons)
      × All
          (λ (earlier : Decision). earlier.subject_id ≡ o.id → earlier.revision < d.revision)
          db.decisions
      × (e.event_type ≡ "shadow.decision.created")
      × (e.aggregate_type ≡ "decision")
      × (e.aggregate_id ≡ d.id)
      × (e.published_at ≡ none)
      × (as_text (get "decision_id" e.payload) ≡ some (platform.show_uuid d.id))
      × (as_text (get "observation_id" e.payload) ≡ some (platform.show_uuid o.id))
      × (as_text (get "outcome" e.payload) ≡ some (outcome_text result.outcome))
handle_creates platform policy draws envelope o db a new fresh = (
  decision_row draws o (evaluate policy (fact_of o db)) (latest_revision o.id db.decisions + 1),
  outbox_row platform draws o (evaluate policy (fact_of o db)),
  handle-with_decision platform policy draws envelope o db a new fresh,
  refl,
  refl,
  refl,
  (evaluate-policy policy (fact_of o db)).0,
  (evaluate-policy policy (fact_of o db)).1,
  refl,
  next_revision_greater o.id (latest_revision o.id db.decisions) db.decisions (omega arith),
  refl,
  refl,
  refl,
  refl,
  refl,
  refl,
  refl,
)
