-- ===== src/Frigate/Ingest/Idempotence.antt =====
-- adapters/frigate/pipeline.py: a message that is ingested again.
use mathlib.Core.Path.{subst}
use nanexus_event_intelligen.Prelude.{
  String, ◌≡◌, refl, sym, ap, ◌∙◌, arith, inl, inr, true, Option, none, some, List, [], ◌∷◌, ◌++◌,
  ◌==◌, string_eq, number_eq, ==_refl, find?-append_some, eqb, ◌&&◌, if◌then◌else◌,
}
use nanexus_event_intelligen.Core.{Uuid, ok, Platform, Draws}
use nanexus_event_intelligen.Persistence.Models.{Observation, RawSourceMessage, OutboxEvent}
use nanexus_event_intelligen.Persistence.Database.{Database}
use nanexus_event_intelligen.Persistence.Repositories.RawMessages
use nanexus_event_intelligen.Frigate.Payloads.{FrigatePlatform}
use nanexus_event_intelligen.Frigate.Replay.{FixtureMessage}
use nanexus_event_intelligen.Frigate.Normalizer.{normalize_frigate_message}
use nanexus_event_intelligen.Frigate.Ingest.{
  duplicate, IngestResult, FrigateIngestPipeline, finish, unless_observed, by_event, incoming,
  ignore, safely, unless_recorded, ingest,
}
use nanexus_event_intelligen.Frigate.Ingest.Rows.{raw_key}
use nanexus_event_intelligen.Frigate.Ingest.Frame.{recorded}
use nanexus_event_intelligen.Frigate.Ingest.Cases.{
  IsKnown, Ends, repeated, set_aside, left_out, stored, ingest-Ends,
}

module _ (platform : Platform) (frigate : FrigatePlatform) (pipeline : FrigateIngestPipeline)
    (message : FixtureMessage) where
  module _ (draws : Draws) (stream cursor : String) where
    known-ingest :
        (db : Database)
        → IsKnown platform frigate draws pipeline message stream cursor (recorded db)
        → ingest platform frigate draws pipeline message stream cursor db
          ≡ finish platform frigate draws pipeline message stream cursor duplicate none db
    unfolding ingest
    known-ingest db (inl (m, e)) =
        ap (λ found. unless_recorded platform frigate draws pipeline message stream cursor found db)
          e
    known-ingest db (inr (payload, event, o, safe, a, n, g)) =
        by_found
          (RawMessages.get_by_dedupe_key pipeline.source_instance_id (raw_key platform message) db)
      where
        by_found :
            (found : Option RawSourceMessage)
            → unless_recorded platform frigate draws pipeline message stream cursor found db
              ≡ finish platform frigate draws pipeline message stream cursor duplicate none db
        by_found (some m) = refl
        by_found none =
            ap (λ p. safely platform frigate draws pipeline message stream cursor p db) safe
            ∙ ap
                (λ b.
                  (if b
                      then ignore platform frigate draws pipeline message stream cursor payload
                      else by_event platform frigate draws pipeline message stream cursor payload (
                          normalize_frigate_message platform frigate (
                            incoming platform frigate draws pipeline message stream cursor
                              payload)))
                    db)
                a
            ∙ ap (λ e. by_event platform frigate draws pipeline message stream cursor payload e db)
                n
            ∙ ap
                (λ f.
                  unless_observed platform frigate draws pipeline message stream cursor payload
                    event f db)
                g

  module _ (draws : Draws) (stream cursor : String) where
    has_raw_key : (source : Uuid) (key : String) → (eqb source source && (key == key)) ≡ true
    has_raw_key source key = ground (arith, ==_refl key)

    noted-IsKnown :
        (m : RawSourceMessage) (os : List Observation) (ws : List OutboxEvent)
        (ms : List RawSourceMessage)
        → RawMessages.has_key pipeline.source_instance_id (raw_key platform message) m ≡ true
        → IsKnown platform frigate draws pipeline message stream cursor (os, ws, ms ++ m ∷ [])
    noted-IsKnown m os ws ms h = inl (
        find?-append_some
          (RawMessages.has_key pipeline.source_instance_id (raw_key platform message)) ms m h)

    Ends-IsKnown :
        (db db' : Database) (r : IngestResult)
        → Ends platform frigate draws pipeline message stream cursor db db' r
        → IsKnown platform frigate draws pipeline message stream cursor (recorded db')
    Ends-IsKnown db db' r (repeated (e, known, s) moved) =
        subst (IsKnown platform frigate draws pipeline message stream cursor) (sym s) known
    Ends-IsKnown db db' r (set_aside (payload, safe, e, s) moved) =
        subst (IsKnown platform frigate draws pipeline message stream cursor) (sym s) (
          noted-IsKnown _ _ db.outbox_events db.raw_source_messages
            (has_raw_key pipeline.source_instance_id (raw_key platform message)))
    Ends-IsKnown db db' r (left_out (payload, safe, e, s) moved) =
        subst (IsKnown platform frigate draws pipeline message stream cursor) (sym s) (
          noted-IsKnown _ _ db.outbox_events db.raw_source_messages
            (has_raw_key pipeline.source_instance_id (raw_key platform message)))
    Ends-IsKnown db db' r (stored (payload, event, history, internal, safe, n, g, e, s) moved) =
        subst (IsKnown platform frigate draws pipeline message stream cursor) (sym s) (
          noted-IsKnown _ _ db.outbox_events db.raw_source_messages
            (has_raw_key pipeline.source_instance_id (raw_key platform message)))

  -- A message that was ingested, whichever way that ended, and is ingested again, from any stream and
  -- cursor, is a duplicate: it moves the checkpoint, writes nothing else, and answers "duplicate".
  pub ingest_twice :
      (draws draws' : Draws) (stream stream' cursor cursor' : String) (db db' : Database)
      (r : IngestResult)
      → ingest platform frigate draws pipeline message stream cursor db ≡ ok (r, db')
      → ingest platform frigate draws' pipeline message stream' cursor' db'
        ≡ finish platform frigate draws' pipeline message stream' cursor' duplicate none db'
  ingest_twice draws draws' stream stream' cursor cursor' db db' r h =
      known-ingest draws' stream' cursor' db' (
        Ends-IsKnown draws stream cursor db db' r
          (ingest-Ends platform frigate draws pipeline message stream cursor db db' r h))
