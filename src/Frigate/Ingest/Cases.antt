-- ===== src/Frigate/Ingest/Cases.antt =====
-- adapters/frigate/pipeline.py: the ways in which an ingest ends.
use nanexus_event_intelligen.Prelude.{
  String, ◌≡◌, refl, ap, ◌∙◌, arith, ◌⊎◌, inl, inr, Bool, true, false, Option, none, some, List, [],
  ◌∷◌, ◌++◌, find?, if◌then◌else◌,
}
use nanexus_event_intelligen.Core.{
  Uuid, Error, Result, ok, err, frigate_protocol_error, Platform, Draws,
}
use nanexus_event_intelligen.Core.Payload.{Fields}
use nanexus_event_intelligen.Core.SourceAdapter.{CanonicalSourceEvent}
use nanexus_event_intelligen.Persistence.Models.{Observation, RawSourceMessage}
use nanexus_event_intelligen.Persistence.Database.{Database, ◌>>◌}
use nanexus_event_intelligen.Persistence.Database.Frames.{>>=-passed}
use nanexus_event_intelligen.Persistence.Repositories.RawMessages
use nanexus_event_intelligen.Persistence.Repositories.RawMessages.{NewRawSourceMessage}
use nanexus_event_intelligen.Persistence.Repositories.Observations
use nanexus_event_intelligen.Frigate.Payloads.{FrigatePlatform}
use nanexus_event_intelligen.Frigate.Replay.{FixtureMessage}
use nanexus_event_intelligen.Frigate.Normalizer.{normalize_frigate_message}
use nanexus_event_intelligen.Frigate.Normalizer.Branches.{ends_with}
use nanexus_event_intelligen.Frigate.Ingest.{
  IngestStatus, persisted, duplicate, quarantined, ignored, IngestResult, FrigateIngestPipeline,
  finish, unless_observed, by_event, incoming, ignore, safely, safe_payload_of, unless_recorded,
  ingest,
}
use nanexus_event_intelligen.Frigate.Ingest.Rows.{raw_key, raw_data, quarantine, outbox_row}
use nanexus_event_intelligen.Frigate.Ingest.History.{with_history}
use nanexus_event_intelligen.Frigate.Ingest.Frame.{recorded}
use nanexus_event_intelligen.Frigate.Ingest.Persisted.{
  Recorded, observed, announced, observation_of, finish-result, add_raw-appends,
  store_event-records, IsAdvanced,
}

abbrev pub noted : RawSourceMessage → Recorded → Recorded
noted m t = (t.0, t.1, t.2 ++ m ∷ [])

module _ (platform : Platform) (frigate : FrigatePlatform) (draws : Draws)
    (pipeline : FrigateIngestPipeline) (message : FixtureMessage) (stream cursor : String) where
  abbrev pub new_raw : Fields → NewRawSourceMessage
  new_raw payload = raw_data platform pipeline.source_instance_id message payload

  -- The raw message's row.
  abbrev pub raw_row : NewRawSourceMessage → RawSourceMessage
  raw_row new = RawMessages.row (draws.id 0) new

  abbrev pub result : IngestStatus → Option Uuid → IngestResult
  result status id = record { status = status; cursor = cursor; observation_id = id }

  abbrev pub IsSafe : Fields → Type 0
  IsSafe payload =
      safe_payload_of platform frigate draws pipeline message stream cursor ≡ some payload

  -- The tables hold the raw message, or the observation of its event.
  abbrev pub IsKnown : Recorded → Type 0
  IsKnown t =
      ((m : RawSourceMessage) × (find?
            (RawMessages.has_key pipeline.source_instance_id (raw_key platform message)) t.2
          ≡ some m))
      ⊎ ((payload : Fields) × (event : CanonicalSourceEvent) × (o : Observation) × IsSafe payload
          × (ends_with "/available" message.topic ≡ false)
          × (normalize_frigate_message platform frigate
                (incoming platform frigate draws pipeline message stream cursor payload)
              ≡ ok event)
          × (find? (Observations.has_key pipeline.source_instance_id event.dedupe_key) t.0
              ≡ some o))

  abbrev pub IsRepeated : Database → Database → IngestResult → Type 0
  IsRepeated db db' r =
      (r ≡ result duplicate none) × IsKnown (recorded db) × (recorded db' ≡ recorded db)

  abbrev pub IsQuarantined : Database → Database → IngestResult → Type 0
  IsQuarantined db db' r =
      (payload : Fields) × IsSafe payload
      × (r ≡ result quarantined none)
      × (recorded db' ≡ noted (raw_row (quarantine (new_raw payload))) (recorded db))

  abbrev pub IsIgnored : Database → Database → IngestResult → Type 0
  IsIgnored db db' r =
      (payload : Fields) × IsSafe payload
      × (r ≡ result ignored none)
      × (recorded db' ≡ noted (raw_row (new_raw payload)) (recorded db))

  -- The event that the normalizer gave, with its history, is in the tables.
  abbrev pub IsPersisted : Database → Database → IngestResult → Type 0
  IsPersisted db db' r =
      (payload : Fields) × (event : CanonicalSourceEvent) × (history : List Observation)
      × (internal : Uuid) × IsSafe payload
      × (normalize_frigate_message platform frigate
            (incoming platform frigate draws pipeline message stream cursor payload)
          ≡ ok event)
      × (Observations.get_by_dedupe_key pipeline.source_instance_id event.dedupe_key db ≡ none)
      × (r ≡ result persisted (some (draws.id 3)))
      × (recorded db'
          ≡ announced (outbox_row platform frigate draws internal (with_history history event)) (
              observed
                (observation_of platform frigate draws pipeline message stream cursor (draws.id 0)
                  (with_history history event))
                (noted (raw_row (new_raw payload)) (recorded db))))

  pub data Ends (db db' : Database) (r : IngestResult) : Type 0 where
    repeated :
        IsRepeated db db' r
        → IsAdvanced platform frigate draws pipeline message stream cursor db'
        → Ends db db' r
    set_aside :
        IsQuarantined db db' r
        → IsAdvanced platform frigate draws pipeline message stream cursor db'
        → Ends db db' r
    left_out :
        IsIgnored db db' r
        → IsAdvanced platform frigate draws pipeline message stream cursor db'
        → Ends db db' r
    stored :
        IsPersisted db db' r
        → IsAdvanced platform frigate draws pipeline message stream cursor db'
        → Ends db db' r

  -- A raw message's row, and the end.
  noted-result :
      (new : NewRawSourceMessage) (status : IngestStatus) (db db' : Database) (r : IngestResult)
      → (RawMessages.add (draws.id 0) new
            >> finish platform frigate draws pipeline message stream cursor status none)
          db
        ≡ ok (r, db')
      → (r ≡ result status none)
        × (recorded db' ≡ noted (raw_row new) (recorded db))
        × IsAdvanced platform frigate draws pipeline message stream cursor db'
  noted-result new status db db' r h =
      let (m, db1, e1, h1) = >>=-passed (RawMessages.add (draws.id 0) new) _ db (r, db') h in
      let (e2, s2, moved) =
        finish-result platform frigate draws pipeline message stream cursor status none db1 db' r
          h1 in
      (e2, s2 ∙ ap recorded (add_raw-appends (draws.id 0) new db db1 m e1).1, moved)

  module _ (db db' : Database) (r : IngestResult) where
    repeated-Ends :
        IsKnown (recorded db)
        → finish platform frigate draws pipeline message stream cursor duplicate none db
          ≡ ok (r, db')
        → Ends db db' r
    repeated-Ends known h =
        let (e, s, moved) =
          finish-result platform frigate draws pipeline message stream cursor duplicate none db db'
            r h in
        repeated (e, known, s) moved

    module _ (payload : Fields) (safe : IsSafe payload) where
      persist-Ends :
          (event : CanonicalSourceEvent) (found : Option Observation)
          → ends_with "/available" message.topic ≡ false
          → normalize_frigate_message platform frigate
              (incoming platform frigate draws pipeline message stream cursor payload)
            ≡ ok event
          → Observations.get_by_dedupe_key pipeline.source_instance_id event.dedupe_key db ≡ found
          → unless_observed platform frigate draws pipeline message stream cursor payload event
              found db
            ≡ ok (r, db')
          → Ends db db' r
      persist-Ends event (some o) a n g h = repeated-Ends (inr (payload, event, o, safe, a, n, g)) h
      persist-Ends event none a n g h =
          let (m, db1, e1, h1) =
            >>=-passed (RawMessages.add (draws.id 0) (new_raw payload)) _ db (r, db') h in
          let (m-row, s1) = add_raw-appends (draws.id 0) (new_raw payload) db db1 m e1 in
          let history =
            Observations.list_for_entity pipeline.source_instance_id event.source_namespace
              event.source_entity_id db1 in
          let e = with_history history event in
          let (internal, s2, e2, moved) =
            store_event-records platform frigate draws pipeline message stream cursor e m.id db1 db'
              r h1 in
          let w = outbox_row platform frigate draws internal e in
          let o = λ (x : RawSourceMessage).
            observation_of platform frigate draws pipeline message stream cursor x.id e in
          stored
            (
              payload,
              event,
              history,
              internal,
              safe,
              n,
              g,
              e2,
              s2
                  ∙ ap (λ x. announced w (observed (o x) (recorded db1))) m-row
                  ∙ ap (λ d. announced w (observed (o (raw_row (new_raw payload))) (recorded d)))
                      s1,
            )
            moved

      by_event-Ends :
          (event : Result CanonicalSourceEvent)
          → ends_with "/available" message.topic ≡ false
          → normalize_frigate_message platform frigate
              (incoming platform frigate draws pipeline message stream cursor payload)
            ≡ event
          → by_event platform frigate draws pipeline message stream cursor payload event db
            ≡ ok (r, db')
          → Ends db db' r
      by_event-Ends (ok event) a n h = persist-Ends event _ a n refl h
      by_event-Ends (err (frigate_protocol_error m)) a n h =
          let (e, s, moved) = noted-result (quarantine (new_raw payload)) quarantined db db' r h in
          set_aside (payload, safe, e, s) moved
      by_event-Ends (err (Error.value_error m)) a n h = absurd (ground arith)
      by_event-Ends (err (Error.lookup_error m)) a n h = absurd (ground arith)
      by_event-Ends (err (Error.type_error m)) a n h = absurd (ground arith)
      by_event-Ends (err Error.integrity_error) a n h = absurd (ground arith)
      by_event-Ends (err (Error.http_exception k m)) a n h = absurd (ground arith)
      by_event-Ends (err (Error.delivery_error m b)) a n h = absurd (ground arith)
      by_event-Ends (err (Error.duplicate_observation_error m)) a n h = absurd (ground arith)

      classify-Ends :
          (available : Bool)
          → ends_with "/available" message.topic ≡ available
          → (if available
                then ignore platform frigate draws pipeline message stream cursor payload
                else by_event platform frigate draws pipeline message stream cursor payload (
                    normalize_frigate_message platform frigate
                      (incoming platform frigate draws pipeline message stream cursor payload)))
              db
            ≡ ok (r, db')
          → Ends db db' r
      classify-Ends true a h =
          let (e, s, moved) = noted-result (new_raw payload) ignored db db' r h in
          left_out (payload, safe, e, s) moved
      classify-Ends false a h = by_event-Ends _ a refl h

    safely-Ends :
        (payload : Option Fields)
        → safe_payload_of platform frigate draws pipeline message stream cursor ≡ payload
        → safely platform frigate draws pipeline message stream cursor payload db ≡ ok (r, db')
        → Ends db db' r
    safely-Ends none safe h = absurd (ground arith)
    safely-Ends (some payload) safe h =
        classify-Ends payload safe (ends_with "/available" message.topic) refl h

    recorded-Ends :
        (found : Option RawSourceMessage)
        → RawMessages.get_by_dedupe_key pipeline.source_instance_id (raw_key platform message) db
          ≡ found
        → unless_recorded platform frigate draws pipeline message stream cursor found db
          ≡ ok (r, db')
        → Ends db db' r
    recorded-Ends (some m) g h = repeated-Ends (inl (m, g)) h
    recorded-Ends none g h = safely-Ends _ refl h

    -- Each of the ways to end well.
    pub ingest-Ends :
        ingest platform frigate draws pipeline message stream cursor db ≡ ok (r, db')
        → Ends db db' r
    unfolding ingest
    ingest-Ends h =
        recorded-Ends
          (RawMessages.get_by_dedupe_key pipeline.source_instance_id (raw_key platform message) db)
          refl h
