-- ===== src/Notifications/Handler/Settled.antt =====
-- notifications/handler.py: the last transaction brings the action to its end.
use nanexus_event_intelligen.Prelude.{
  String, ◌≡◌, refl, Bool, true, false, Option, none, some, List, arith, eqb, find?-update_where,
}
use nanexus_event_intelligen.Core.{Error, Result, ok, err, delivery_error}
use nanexus_event_intelligen.Persistence.Models.{Action, Notification}
use nanexus_event_intelligen.Persistence.Database.{Database, transact}
use nanexus_event_intelligen.Notifications.Models.{DeliveryResult}
use nanexus_event_intelligen.Notifications.Handler.{
  is_terminal, find_action, find_notification, set_action, set_notification, succeeded_action,
  failed_action, store_success, succeed, fail, record_success, mark_failure, reraise, conclude,
}

-- The action of the key has succeeded or failed for good.
abbrev pub IsSettledKey : String → Database → Type 0
IsSettledKey key db = (a : Action) × (find_action key db ≡ some a) × (is_terminal a.status ≡ true)

find_action-set_action :
    (key : String) (f : Action → Action) (db : Database) (a : Action)
    → ((x : Action) → (f x).idempotency_key ≡ x.idempotency_key)
    → find_action key db ≡ some a
    → find_action key (set_action f a.id db) ≡ some (f a)
find_action-set_action key f db a keeps h =
    find?-update_where _ (λ x. eqb x.id a.id) f db.actions a (λ x. rw (keeps x) refl) h
      (ground arith)

-- The notification's rewriting touches the notifications only.
pub set_notification-Kept :
    (P : Database → Type 0) (f : Notification → Notification) (n : Option Notification)
    (db : Database)
    → ((notifications : List Notification) → P db → P (record db { notifications = notifications }))
    → P db
    → P (set_notification f n db)
set_notification-Kept P f none db keeps h = h
set_notification-Kept P f (some n) db keeps h = keeps _ h

store_success-settles :
    (key : String) (result : DeliveryResult) (a : Action) (n : Option Notification) (db : Database)
    → find_action key db ≡ some a
    → (transact (store_success result a n) db).0 ≡ ok tt
    → IsSettledKey key (transact (store_success result a n) db).1
store_success-settles key result a none db e h = absurd (ground arith)
store_success-settles key result a (some n) db e h =
    (succeeded_action a, find_action-set_action key succeeded_action db a (λ x. refl) e, refl)

succeed-settles :
    (key : String) (result : DeliveryResult) (found : Option Action) (db : Database)
    → find_action key db ≡ found
    → (transact (succeed result found) db).0 ≡ ok tt
    → IsSettledKey key (transact (succeed result found) db).1
succeed-settles key result none db e h = absurd (ground arith)
succeed-settles key result (some a) db e h =
    store_success-settles key result a (find_notification a db) db e h

fail-settles :
    (key message : String) (found : Option Action) (db : Database)
    → find_action key db ≡ found
    → (transact (fail message false found) db).0 ≡ ok tt
    → IsSettledKey key (transact (fail message false found) db).1
fail-settles key message none db e h = absurd (ground arith)
fail-settles key message (some a) db e h =
    set_notification-Kept (IsSettledKey key) _ (find_notification a db)
      (set_action (failed_action message false) a.id db) (λ _ k. k)
      (
        failed_action message false a,
        find_action-set_action key (failed_action message false) db a (λ x. refl) e,
        refl,
      )

reraise-settles :
    (P : Database → Type 0) (e : Error) (retryable : Bool) (p : Result (Unit {0}) × Database)
    → (retryable ≡ false → p.0 ≡ ok tt → P p.1)
    → (reraise e retryable p).0 ≡ ok tt
    → P (reraise e retryable p).1
reraise-settles P e retryable (err e', db) k h = absurd (ground arith)
reraise-settles P e true (ok u, db) k h = absurd (ground arith)
reraise-settles P e false (ok tt, db) k h = k refl refl

mark_failure-settles :
    (key message : String) (retryable : Bool) (db : Database)
    → retryable ≡ false
    → (transact (mark_failure key message retryable) db).0 ≡ ok tt
    → IsSettledKey key (transact (mark_failure key message retryable) db).1
unfolding mark_failure
mark_failure-settles key message true db e h = absurd (ground arith)
mark_failure-settles key message false db e h =
    fail-settles key message (find_action key db) db refl h

-- A delivery whose conclusion raises nothing leaves the action of the key at its end.
pub conclude-settles :
    (key : String) (delivered : Result DeliveryResult) (db : Database)
    → (conclude key delivered db).0 ≡ ok tt
    → IsSettledKey key (conclude key delivered db).1
unfolding record_success
conclude-settles key (ok result) db h = succeed-settles key result (find_action key db) db refl h
conclude-settles key (err (delivery_error message retryable)) db h =
    reraise-settles (IsSettledKey key) (delivery_error message retryable) retryable
      (transact (mark_failure key message retryable) db)
      (mark_failure-settles key message retryable db) h
conclude-settles key (err (Error.value_error m)) db h = absurd (ground arith)
conclude-settles key (err (Error.lookup_error m)) db h = absurd (ground arith)
conclude-settles key (err (Error.type_error m)) db h = absurd (ground arith)
conclude-settles key (err Error.integrity_error) db h = absurd (ground arith)
conclude-settles key (err (Error.http_exception n m)) db h = absurd (ground arith)
conclude-settles key (err (Error.duplicate_observation_error m)) db h = absurd (ground arith)
conclude-settles key (err (Error.frigate_protocol_error m)) db h = absurd (ground arith)
