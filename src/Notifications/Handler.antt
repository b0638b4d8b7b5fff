-- ===== src/Notifications/Handler.antt =====
-- notifications/handler.py: the consumer that sends a notification for a decision. Two transactions
-- with the delivery between them; the adapter has a state of its own.
pub mod Settled
pub mod Subject
pub mod AtMostOnce
use nanexus_event_intelligen.Prelude.{
  ℕ, ◌+◌, String, Bool, true, false, not, ◌&&◌, Option, none, some, List, [], ◌∷◌, eqb, ◌==◌,
  string_eq, find?, update_where, or_else, if◌then◌else◌,
}
use nanexus_event_intelligen.Prelude.Texts.{append, join, truncate}
use nanexus_event_intelligen.Core.{
  Uuid, Error, value_error, lookup_error, type_error, delivery_error, Platform, Draws, Result, ok,
  err,
}
use nanexus_event_intelligen.Core.Payload.{Json, Fields, end, field, text, obj, arr, texts, get}
use nanexus_event_intelligen.Localization.{system_text}
use nanexus_event_intelligen.Persistence.Models.{
  Observation, Decision, Action, ActionStatus, planned, running, succeeded, retryable_failure,
  permanent_failure, Notification, Stage, initial, enhanced, resolved, escalated,
}
use nanexus_event_intelligen.Persistence.Database.{
  Database, Tx, transact, pure, raise, gets, or_raise, raise_if, modify, insert_action,
  insert_notification, ◌>>=◌, ◌>>◌,
}
use nanexus_event_intelligen.Pipeline.Envelope.{StreamEnvelope}
use nanexus_event_intelligen.Notifications.Models.{
  NotifiedOutcome, send, escalate, NotificationMessage, DeliveryResult, NotificationAdapter,
  message_valid,
}
use nanexus_event_intelligen.Notifications.Request.{Request, key_of, read_request}
use nanexus_event_intelligen.Notifications.Message.{build_message, new_action, new_notification}

abbrev pub is_terminal : ActionStatus → Bool
is_terminal succeeded = true
is_terminal permanent_failure = true
is_terminal _ = false

abbrev pub find_action : String → Database → Option Action
find_action key db = find? (λ (a : Action). a.idempotency_key == key) db.actions

abbrev pub find_notification : Action → Database → Option Notification
find_notification action db =
    find? (λ (n : Notification). eqb n.action_id action.id) db.notifications

abbrev matched : Option Decision → Option Observation → Option (Decision × Observation)
matched (some d) (some o) = if eqb d.subject_id o.id then some (d, o) else none
matched _ _ = none

-- The decision and the observation, if both are there and belong together.
abbrev pub subject_of : Request → Database → Option (Decision × Observation)
subject_of r db =
    matched (find? (λ (d : Decision). eqb d.id r.decision_id) db.decisions)
      (find? (λ (o : Observation). eqb o.id r.observation_id) db.observations)

-- `action.status = "running"`, one more attempt, no error.
abbrev pub mark_running : Uuid → Database → Database
mark_running id db = record db {
  actions =
      update_where (λ (a : Action). eqb a.id id)
        (λ (a : Action). record a {
          status = running;
          attempts = a.attempts + 1;
          last_error = none;
        })
        db.actions;
}

abbrev pub lift : {A : Type 0} → Result A → Tx A
lift (ok a) = pure a
lift (err e) = raise e

abbrev failure_status : Bool → ActionStatus
failure_status true = retryable_failure
failure_status false = permanent_failure

-- The action is there and may be tried again.
abbrev pub retry :
    Platform → Request → Decision → Observation → Action → Tx (Option NotificationMessage)
retry platform r d o action = do
  message ← lift (build_message platform r d o)
  modify (mark_running action.id)
  pure (some message)

abbrev pub record_new :
    Platform → Draws → Request → Decision → Observation → Tx (Option NotificationMessage)
record_new platform draws r d o = do
  message ← lift (build_message platform r d o)
  insert_action (new_action platform draws message)
  insert_notification (new_notification draws message)
  modify (mark_running (draws.id 0))
  pure (some message)

abbrev pub start :
    Platform
    → Draws
    → Request
    → Decision
    → Observation
    → Option Action
    → Tx (Option NotificationMessage)
start platform draws r d o none = record_new platform draws r d o
start platform draws r d o (some action) =
    if is_terminal action.status then pure none else retry platform r d o action

-- The first transaction: none where the action has come to its end before.
unfoldable pub begin : Platform → Draws → Request → Tx (Option NotificationMessage)
begin platform draws r = do
  found ← gets (subject_of r)
  subject ← or_raise found (lookup_error "notification subject was not found")
  action ← gets (find_action (key_of platform r))
  start platform draws r subject.0 subject.1 action

abbrev pub set_action : (Action → Action) → Uuid → Database → Database
set_action f id db = record db { actions = update_where (λ (a : Action). eqb a.id id) f db.actions }

abbrev pub set_notification :
    (Notification → Notification) → Option Notification → Database → Database
set_notification f none db = db
set_notification f (some notification) db = record db {
  notifications = update_where (λ (n : Notification). eqb n.id notification.id) f db.notifications;
}

abbrev pub succeeded_action : Action → Action
succeeded_action a = record a { status = succeeded }

abbrev pub failed_action : String → Bool → Action → Action
failed_action message retryable a = record a {
  status = failure_status retryable;
  last_error = some (truncate 1000 message);
}

abbrev pub store_success : DeliveryResult → Action → Option Notification → Tx (Unit {0})
store_success result action none = raise (lookup_error "notification record was not found")
store_success result action (some notification) = do
  modify (set_action succeeded_action action.id)
  modify (
      set_notification
        (λ n. record n {
          delivery_status = succeeded;
          external_message_id = result.external_message_id;
        })
        (some notification))

abbrev pub succeed : DeliveryResult → Option Action → Tx (Unit {0})
succeed result none = raise (lookup_error "notification action was not found")
succeed result (some action) = do
  notification ← gets (find_notification action)
  store_success result action notification

-- The last transaction, after a delivery.
unfoldable pub record_success : String → DeliveryResult → Tx (Unit {0})
record_success key result = do action ← gets (find_action key); succeed result action

abbrev pub fail : String → Bool → Option Action → Tx (Unit {0})
fail message retryable none = raise (lookup_error "notification action was not found")
fail message retryable (some action) = do
  notification ← gets (find_notification action)
  modify (set_action (failed_action message retryable) action.id)
  modify
      (set_notification (λ n. record n { delivery_status = failure_status retryable }) notification)

-- `_mark_failure`
unfoldable pub mark_failure : String → String → Bool → Tx (Unit {0})
mark_failure key message retryable = do
  action ← gets (find_action key)
  fail message retryable action

-- `if error.retryable: raise`, once the failure is stored.
abbrev pub reraise : Error → Bool → Result (Unit {0}) × Database → Result (Unit {0}) × Database
reraise e retryable (err e', db) = (err e', db)
reraise e true (ok u, db) = (err e, db)
reraise e false (ok u, db) = (ok u, db)

abbrev pub conclude : String → Result DeliveryResult → Database → Result (Unit {0}) × Database
conclude key (ok result) db = transact (record_success key result) db
conclude key (err (delivery_error message retryable)) db =
    reraise (delivery_error message retryable) retryable
      (transact (mark_failure key message retryable) db)
conclude key (err e) db = (err e, db)

module _ {N : Type 0} (platform : Platform) (adapter : NotificationAdapter N) (draws : Draws) where
  -- The delivery, after the first transaction.
  abbrev pub send_on :
      String → Result (Option NotificationMessage) × Database → N → Result (Unit {0}) × Database × N
  send_on key (err e, db) n = (err e, db, n)
  send_on key (ok none, db) n = (ok tt, db, n)
  send_on key (ok (some message), db) n =
      let (delivered, n') = adapter message n in
      let (result, db') = conclude key delivered db in (result, db', n')

  abbrev pub dispatch : Result (Option Request) → Database → N → Result (Unit {0}) × Database × N
  dispatch (err e) db n = (err e, db, n)
  dispatch (ok none) db n = (ok tt, db, n)
  dispatch (ok (some r)) db n = send_on (key_of platform r) (transact (begin platform draws r) db) n

  unfoldable pub notify : StreamEnvelope → Database → N → Result (Unit {0}) × Database × N
  notify envelope db n = dispatch (read_request platform envelope) db n
