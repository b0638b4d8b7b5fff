-- ===== src/Notifications/Handler/Subject.antt =====
-- notifications/handler.py: no transaction takes the subject of a request away.
use nanexus_event_intelligen.Prelude.{String, ◌≡◌, some, List, arith}
use nanexus_event_intelligen.Core.{Platform, Draws, Result, ok, err}
use nanexus_event_intelligen.Persistence.Models.{Decision, Observation}
use nanexus_event_intelligen.Persistence.Database.{
  Database, Tx, ◌>>=◌, transact, insert_action, insert_notification,
}
use nanexus_event_intelligen.Notifications.Models.{DeliveryResult}
use nanexus_event_intelligen.Notifications.Request.{Request}
use nanexus_event_intelligen.Notifications.Handler.{
  subject_of, record_success, mark_failure, conclude, begin, lift,
}

module _ (r : Request) (s : Decision × Observation) where
  -- The decision and the observation of the request.
  abbrev pub HasSubject : Database → Type 0
  HasSubject db = subject_of r db ≡ some s

  abbrev pub Holds : {A : Type 0} → Result (A × Database) → Type 0
  Holds (err e) = Unit {0}
  Holds (ok (a, db)) = HasSubject db

  abbrev pub Keeps : {A : Type 0} → Tx A → Type 0
  Keeps act = (db : Database) → HasSubject db → Holds (act db)

  bind-Keeps :
      {A B : Type 0} (act : Tx A) (f : A → Tx B)
      → Keeps act
      → ((a : A) → Keeps (f a))
      → Keeps (act >>= f)
  bind-Keeps {A} {B} act f k l db h = onwards (act db) (k db h)
    where
      onwards :
          (result : Result (A × Database))
          → Holds result
          → Holds (elim result [ ok (a, db') ↦ f a db' | err e ↦ err e ])
      onwards (ok (a, db')) g = l a db' g
      onwards (err e) g = tt

  lift-Keeps : {A : Type 0} (result : Result A) → Keeps (lift result)
  lift-Keeps (ok a) db h = h
  lift-Keeps (err e) db h = tt

  pub transact-Keeps :
      {A : Type 0} (act : Tx A)
      → Keeps act
      → (db : Database) → HasSubject db
      → HasSubject (transact act db).1
  transact-Keeps {A} act k db h = onwards (act db) (k db h)
    where
      onwards :
          (result : Result (A × Database))
          → Holds result
          → HasSubject
              (elim result as (λ _. Result A × Database) [
                | ok (a, db') ↦ (ok a, db')
                | err e ↦ (err e, db)
              ]).1
      onwards (ok (a, db')) g = g
      onwards (err e) g = h

  stored-Keeps :
      {A : Type 0} (put : List A → Database)
      → ((table : List A) → HasSubject (put table))
      → (added : Result (List A))
      → Holds (elim added as (λ _. Result (Unit {0} × Database)) [
        | ok t ↦ ok (tt, put t)
        | err e ↦ err e
      ])
  stored-Keeps put k (ok table) = k table
  stored-Keeps put k (err e) = tt

  pub begin-Keeps : (platform : Platform) (draws : Draws) → Keeps (begin platform draws r)
  unfolding begin insert_action insert_notification
  begin-Keeps platform draws db h = ground arith

  pub conclude-Keeps :
      (key : String) (delivered : Result DeliveryResult) (db : Database)
      → HasSubject db
      → HasSubject (conclude key delivered db).1
  unfolding record_success mark_failure
  conclude-Keeps key delivered db h = ground arith
