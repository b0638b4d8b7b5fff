-- ===== src/Pipeline/Observations/Redelivery.antt =====
-- pipeline/handlers.py: a message that is delivered again.
use nanexus_event_intelligen.Prelude.{
  String, ◌≡◌, refl, Bool, true, false, Option, none, some, List, [], ◌∷◌, arith, length, ◌==◌,
  string_eq, filter, update_where, if◌then◌else◌,
}
use nanexus_event_intelligen.Core.{Uuid, Time, Platform, ok}
use nanexus_event_intelligen.Core.Payload.{Fields, get, as_dict, as_text}
use nanexus_event_intelligen.Persistence.Models.{Observation}
use nanexus_event_intelligen.Persistence.Database.{Database, pure}
use nanexus_event_intelligen.Pipeline.Envelope.{StreamEnvelope}
use nanexus_event_intelligen.Pipeline.Observations.{
  is_identified, set_processed, mark_processed, marked, identify, process_event, observe,
}

module _ (source : Uuid) (key : String) (now later : Time) where
  update_where-again :
      (os : List Observation)
      → update_where
          (is_identified source key)
          (set_processed later)
          (update_where (is_identified source key) (set_processed now) os)
        ≡ update_where (is_identified source key) (set_processed later) os
  update_where-again [] = refl
  update_where-again (o ∷ os) = ground (arith, update_where-again os)

  length-filter-update_where :
      (os : List Observation)
      → length (
          filter
            (is_identified source key)
            (update_where (is_identified source key) (set_processed now) os))
        ≡ length (filter (is_identified source key) os)
  length-filter-update_where [] = refl
  length-filter-update_where (o ∷ os) = ground (arith, length-filter-update_where os)

  mark_processed-again :
      (db db' : Database)
      → mark_processed now source key db ≡ ok (tt, db')
      → mark_processed later source key db' ≡ mark_processed later source key db
  mark_processed-again db db' h =
      ground (arith, update_where-again db.observations, length-filter-update_where db.observations)

-- Where a first delivery changed the row of an observation, or took the message for another event, a
-- later delivery of the same message gives what it would give if the first had never happened: the
-- same result, and the same tables, with the later time.
pub observe_again :
    (platform : Platform) (now later : Time) (envelope : StreamEnvelope) (db db' : Database)
    → observe platform now envelope db ≡ ok (tt, db')
    → observe platform later envelope db' ≡ observe platform later envelope db
unfolding observe
observe_again platform now later envelope db db' h =
    by_kind (envelope.event_type == "canonical.observation.persisted") h
  where
    by_parsed :
        (parsed : Option Uuid) (key : String)
        → marked platform now key parsed db ≡ ok (tt, db')
        → marked platform later key parsed db' ≡ marked platform later key parsed db
    by_parsed none key e = absurd (ground arith)
    by_parsed (some source) key e = mark_processed-again source key now later db db' e

    by_identity :
        (source_id key : Option String)
        → identify platform now source_id key db ≡ ok (tt, db')
        → identify platform later source_id key db' ≡ identify platform later source_id key db
    by_identity (some source_id) (some key) e = by_parsed (platform.parse_uuid source_id) key e
    by_identity none key e = absurd (ground arith)
    by_identity (some source_id) none e = absurd (ground arith)

    by_event :
        (event : Option Fields)
        → process_event platform now event db ≡ ok (tt, db')
        → process_event platform later event db' ≡ process_event platform later event db
    by_event none e = absurd (ground arith)
    by_event (some event) e =
        by_identity (as_text (get "source_instance_id" event)) (as_text (get "dedupe_key" event)) e

    by_kind :
        (b : Bool)
        → (if b
              then process_event platform now (as_dict (get "event" envelope.payload))
              else pure tt)
            db
          ≡ ok (tt, db')
        → (if b
              then process_event platform later (as_dict (get "event" envelope.payload))
              else pure tt)
            db'
          ≡ (if b
                then process_event platform later (as_dict (get "event" envelope.payload))
                else pure tt)
              db
    by_kind true e = by_event (as_dict (get "event" envelope.payload)) e
    by_kind false e = ground arith
