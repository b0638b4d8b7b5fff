-- ===== src/Frigate/Ingest/Failure.antt =====
-- adapters/frigate/pipeline.py: an exception that is no protocol error.
use nanexus_event_intelligen.Prelude.{
  String, ◌≡◌, refl, ap, ◌∙◌, ◌⊎◌, inl, inr, true, false, none, some, string_eq, number_eq,
  if◌then◌else◌,
}
use nanexus_event_intelligen.Core.{Result, err, value_error, Platform, Draws}
use nanexus_event_intelligen.Core.Payload.{Fields}
use nanexus_event_intelligen.Persistence.Database.{Database, transact}
use nanexus_event_intelligen.Persistence.Repositories.RawMessages
use nanexus_event_intelligen.Frigate.Payloads.{FrigatePlatform, Float, ReviewMessage, ObjectMessage}
use nanexus_event_intelligen.Frigate.Replay.{FixtureMessage}
use nanexus_event_intelligen.Frigate.Normalizer.{Incoming, normalize_frigate_message}
use nanexus_event_intelligen.Frigate.Normalizer.Branches.{ends_with}
use nanexus_event_intelligen.Frigate.Ingest.{
  IngestResult, FrigateIngestPipeline, by_event, incoming, ignore, safely, unless_recorded, ingest,
}
use nanexus_event_intelligen.Frigate.Ingest.Rows.{raw_key}
use nanexus_event_intelligen.Frigate.Ingest.Cases.{IsSafe}

module _ (platform : Platform) (frigate : FrigatePlatform) where
  -- The payload is that of a review, or of an event, that ended at this time.
  abbrev pub HasEnded : Float → String → Fields → Type 0
  HasEnded t topic payload =
      ((review : ReviewMessage) × (ends_with "/reviews" topic ≡ true)
        × (frigate.review_message payload ≡ some review)
        × (review.after.end_time ≡ some t))
      ⊎ ((object : ObjectMessage) × (ends_with "/reviews" topic ≡ false)
          × (ends_with "/events" topic ≡ true)
          × (frigate.object_message payload ≡ some object)
          × (object.after.end_time ≡ some t))

  normalize-HasEnded :
      (t : Float) (reason : String) (message : Incoming)
      → HasEnded t message.topic message.payload
      → frigate.is_true t ≡ true
      → frigate.fromtimestamp t ≡ err (value_error reason)
      → normalize_frigate_message platform frigate message ≡ err (value_error reason)
  unfolding normalize_frigate_message
  normalize-HasEnded t reason message (inl (review, is_review, parsed, ended)) nonzero refused =
      rw is_review (rw parsed (rw ended (rw nonzero (rw refused refl))))
  normalize-HasEnded t reason message (inr (object, no_review, is_event, parsed, ended)) nonzero
        refused =
      rw no_review (rw is_event (rw parsed (rw ended (rw nonzero (rw refused refl)))))

module _ (platform : Platform) (frigate : FrigatePlatform) (draws : Draws)
    (pipeline : FrigateIngestPipeline) (message : FixtureMessage) (stream cursor : String) where
  -- A message of the reviews or the events that is not recorded yet, whose payload pydantic accepts,
  -- and whose end time `datetime.fromtimestamp` refuses with a ValueError, is not quarantined: the
  -- exception leaves the ingest, and the transaction leaves the tables as they were, so no raw message
  -- is kept and the checkpoint stays.
  pub ingest_raises :
      (db : Database) (payload : Fields) (t : Float) (reason : String)
      → RawMessages.get_by_dedupe_key pipeline.source_instance_id (raw_key platform message) db
        ≡ none
      → IsSafe platform frigate draws pipeline message stream cursor payload
      → ends_with "/available" message.topic ≡ false
      → HasEnded platform frigate t message.topic payload
      → frigate.is_true t ≡ true
      → frigate.fromtimestamp t ≡ err (value_error reason)
      → transact (ingest platform frigate draws pipeline message stream cursor) db
        ≡ (err (value_error reason), db)
  unfolding ingest
  ingest_raises db payload t reason unrecorded safe a ended_at nonzero refused =
      ap (λ (r : Result (IngestResult × Database)). ended r)
        (ap
            (λ found.
              unless_recorded platform frigate draws pipeline message stream cursor found db)
            unrecorded
          ∙ ap (λ p. safely platform frigate draws pipeline message stream cursor p db) safe
          ∙ ap
              (λ b.
                (if b
                    then ignore platform frigate draws pipeline message stream cursor payload
                    else by_event platform frigate draws pipeline message stream cursor payload (
                        normalize_frigate_message platform frigate
                          (incoming platform frigate draws pipeline message stream cursor payload)))
                  db)
              a
          ∙ ap (λ e. by_event platform frigate draws pipeline message stream cursor payload e db)
              (normalize-HasEnded platform frigate t reason
                (incoming platform frigate draws pipeline message stream cursor payload) ended_at
                nonzero refused))
    where
      ended : Result (IngestResult × Database) → Result IngestResult × Database
      ended r = transact (λ _. r) db
