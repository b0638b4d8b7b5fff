-- ===== src/Notifications/Handler/AtMostOnce.antt =====
-- notifications/handler.py: a notification that was accepted is not sent again.
use nanexus_event_intelligen.Prelude.{
  ◌≡◌, refl, sym, ap, inl, inr, true, Option, none, some, arith, Option-cases,
}
use mathlib.Core.Path.{subst}
use nanexus_event_intelligen.Core.{Platform, Draws, Result, ok, err}
use nanexus_event_intelligen.Persistence.Models.{Decision, Observation, Action}
use nanexus_event_intelligen.Persistence.Database.{
  Database, transact, insert_action, insert_notification,
}
use nanexus_event_intelligen.Pipeline.Envelope.{StreamEnvelope}
use nanexus_event_intelligen.Notifications.Models.{NotificationMessage, NotificationAdapter}
use nanexus_event_intelligen.Notifications.Request.{Request, key_of, read_request}
use nanexus_event_intelligen.Notifications.Handler.{
  is_terminal, find_action, subject_of, conclude, send_on, dispatch, notify, begin, start,
}
use nanexus_event_intelligen.Notifications.Handler.Settled.{IsSettledKey, conclude-settles}
use nanexus_event_intelligen.Notifications.Handler.Subject.{
  HasSubject, Holds, begin-Keeps, conclude-Keeps,
}

module _ (platform : Platform) (r : Request) where
  -- The subject is there and the action has come to its end.
  abbrev IsDone : Database → Type 0
  IsDone db = (s : Decision × Observation) × HasSubject r s db × IsSettledKey (key_of platform r) db

  begin-done :
      (draws : Draws) (db : Database) → IsDone db → begin platform draws r db ≡ ok (none, db)
  unfolding begin
  begin-done draws db (s, has, (a, found, terminal)) = rw (has, found, terminal) refl

  start-none :
      (draws : Draws) (s : Decision × Observation) (found : Option Action) (db db' : Database)
      → start platform draws r s.0 s.1 found db ≡ ok (none, db')
      → ((a : Action) × (found ≡ some a) × (is_terminal a.status ≡ true)) × (db' ≡ db)
  unfolding insert_action insert_notification
  start-none draws s none db db' e = absurd (ground arith)
  start-none draws s (some a) db db' e =
      let (terminal, same) : (is_terminal a.status ≡ true) × (db' ≡ db) = ground arith in
      ((a, refl, terminal), same)

  begin-none :
      (draws : Draws) (db db' : Database)
      → begin platform draws r db ≡ ok (none, db')
      → IsDone db × (db' ≡ db)
  unfolding begin
  begin-none draws db db' e = elim (Option-cases (subject_of r db)) [
    | inl missing ↦ absurd (ground arith)
    | inr (s, has) ↦
        let (action, same) =
          start-none draws s (find_action (key_of platform r) db) db db' (rw has at e) in
        ((s, has, action), same)
  ]

  begin-subject :
      (draws : Draws) (db db' : Database) (m : Option NotificationMessage)
      → begin platform draws r db ≡ ok (m, db')
      → (s : Decision × Observation) × HasSubject r s db
  unfolding begin
  begin-subject draws db db' m e = elim (Option-cases (subject_of r db)) [
    | inl missing ↦ absurd (ground arith)
    | inr found ↦ found
  ]

  module _ {N : Type 0} (adapter adapter' : NotificationAdapter N) (draws draws' : Draws) where
    -- The result of the rest of the handler, tried again.
    abbrev again : Result (Unit {0}) × Database × N → Result (Unit {0}) × Database × N
    again p =
        send_on platform adapter' draws' (key_of platform r)
          (transact (begin platform draws' r) p.1) p.2

    -- The rest of the handler, run again on what it left, changes nothing.
    again-done : (p : Result (Unit {0}) × Database × N) → IsDone p.1 → again p ≡ (ok tt, p.1, p.2)
    again-done p done =
        ap
          (λ began.
            send_on platform adapter' draws' (key_of platform r) (transact (λ _. began) p.1) p.2)
          (begin-done draws' p.1 done)

    send_on-again :
        (began : Result (Option NotificationMessage × Database)) (db : Database) (n : N)
        → begin platform draws r db ≡ began
        → let p = send_on platform adapter draws (key_of platform r) (transact (λ _. began) db) n in
          p.0 ≡ ok tt → again p ≡ (ok tt, p.1, p.2)
    send_on-again (err e) db n b h = absurd (ground arith)
    send_on-again (ok (none, db')) db n b h =
        let (done, same) = begin-none draws db db' b in
        again-done (ok tt, db', n) (subst IsDone (sym same) done)
    send_on-again (ok (some m, db')) db n b h =
        let (s, has) = begin-subject draws db db' (some m) b in
        let has' : HasSubject r s db' =
          subst (Holds r s) b (begin-Keeps r s platform draws db has) in
        let key = key_of platform r in
        let delivered = (adapter m n).0 in
        again-done ((conclude key delivered db').0, (conclude key delivered db').1, (adapter m n).1)
          (s, conclude-Keeps r s key delivered db' has', conclude-settles key delivered db' h)

dispatch-again :
    {N : Type 0} (platform : Platform) (adapter adapter' : NotificationAdapter N)
    (draws draws' : Draws) (request : Result (Option Request)) (db : Database) (n : N)
    → let p = dispatch platform adapter draws request db n in
      p.0 ≡ ok tt → dispatch platform adapter' draws' request p.1 p.2 ≡ (ok tt, p.1, p.2)
dispatch-again platform adapter adapter' draws draws' (err e) db n h = absurd (ground arith)
dispatch-again platform adapter adapter' draws draws' (ok none) db n h = refl
dispatch-again platform adapter adapter' draws draws' (ok (some r)) db n h =
    send_on-again platform r adapter adapter' draws draws' (begin platform draws r db) db n refl h

-- Once the handler has accepted a message (it returned and raised nothing), the same message handled
-- again on what it left behind, with any adapter, identifiers and times, is accepted too, calls no
-- adapter, and changes no table.
pub notify_twice :
    {N : Type 0} (platform : Platform) (adapter adapter' : NotificationAdapter N)
    (draws draws' : Draws) (envelope : StreamEnvelope) (db : Database) (n : N)
    → let p = notify platform adapter draws envelope db n in
      p.0 ≡ ok tt → notify platform adapter' draws' envelope p.1 p.2 ≡ (ok tt, p.1, p.2)
unfolding notify
notify_twice platform adapter adapter' draws draws' envelope db n h =
    dispatch-again platform adapter adapter' draws draws' (read_request platform envelope) db n h
