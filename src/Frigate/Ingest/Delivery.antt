-- ===== src/Frigate/Ingest/Delivery.antt =====
-- adapters/frigate/pipeline.py and pipeline/handlers.py: the consumer of the outbox event of an
-- ingest.
use nanexus_event_intelligen.Prelude.{
  String, ◌≡◌, ap, ◌∙◌, arith, true, none, some, List, [], ◌∷◌, ◌++◌, string_eq, number_eq, ==_refl,
  find?, length-filter-append_new, update_where, filter, length,
}
use nanexus_event_intelligen.Core.{Uuid, Time, ok, Platform, Draws}
use nanexus_event_intelligen.Core.SourceAdapter.{CanonicalSourceEvent}
use nanexus_event_intelligen.Persistence.Models.{Observation, OutboxEvent}
use nanexus_event_intelligen.Persistence.Database.{Database}
use nanexus_event_intelligen.Persistence.Repositories.Observations
use nanexus_event_intelligen.Pipeline.Envelope.{StreamEnvelope}
use nanexus_event_intelligen.Pipeline.Observations.{
  is_identified, set_processed, row_count, observe,
}
use nanexus_event_intelligen.Frigate.Ingest.Dump.{dump_event}
use nanexus_event_intelligen.Frigate.Payloads.{FrigatePlatform}
use nanexus_event_intelligen.Frigate.Replay.{FixtureMessage}
use nanexus_event_intelligen.Frigate.Normalizer.{normalize-source}
use nanexus_event_intelligen.Frigate.Ingest.History.{with_history}
use nanexus_event_intelligen.Frigate.Ingest.{
  persisted, IngestResult, FrigateIngestPipeline, incoming, ingest,
}
use nanexus_event_intelligen.Frigate.Ingest.Rows.{outbox_row}
use nanexus_event_intelligen.Frigate.Ingest.Persisted.{observation_of}
use nanexus_event_intelligen.Frigate.Ingest.Cases.{
  Ends, repeated, set_aside, left_out, stored, ingest-Ends,
}

-- The message of an outbox row, as the stream worker decodes it.
abbrev pub envelope_of : Platform → OutboxEvent → StreamEnvelope
envelope_of platform w = record {
  outbox_id = platform.show_uuid w.id;
  dedupe_key = w.dedupe_key;
  aggregate_type = w.aggregate_type;
  aggregate_id = platform.show_uuid w.aggregate_id;
  event_type = w.event_type;
  schema_version = w.schema_version;
  payload = w.payload;
}

module _ (platform : Platform) (frigate : FrigatePlatform) (draws : Draws)
    (pipeline : FrigateIngestPipeline) (message : FixtureMessage) (stream cursor : String)
    (later : Time) where
  -- A persisted ingest has announced an observation that the consumer finds.
  abbrev pub IsDelivered : Database → Database → Type 0
  IsDelivered db db' =
      (o : Observation) × (w : OutboxEvent) × (db'.observations ≡ db.observations ++ o ∷ [])
      × (db'.outbox_events ≡ db.outbox_events ++ w ∷ [])
      × (observe platform later (envelope_of platform w) db'
          ≡ ok (
            tt,
            record db' {
              observations =
                  update_where (is_identified o.source_instance_id o.dedupe_key)
                    (set_processed later) db'.observations;
            },
          ))

  observe-row :
      (event : CanonicalSourceEvent) (internal source : Uuid) (db : Database)
      → event.source_instance_id ≡ source
      → platform.parse_uuid (platform.show_uuid source) ≡ some source
      → row_count source event.dedupe_key db ≡ 1
      → observe platform later
          (envelope_of platform (outbox_row platform frigate draws internal event))
          db
        ≡ ok (
          tt,
          record db {
            observations =
                update_where
                  (is_identified source event.dedupe_key)
                  (set_processed later)
                  db.observations;
          },
        )
  unfolding observe dump_event
  observe-row event internal source db same parsed one = ground (arith, same, parsed, one)

  row_count-new :
      (source : Uuid) (key : String) (db db' : Database) (o : Observation)
      → find? (Observations.has_key source key) db.observations ≡ none
      → Observations.has_key source key o ≡ true
      → db'.observations ≡ db.observations ++ o ∷ []
      → row_count source key db' ≡ 1
  row_count-new source key db db' o h k s =
      ap (λ (xs : List Observation). length (filter (is_identified source key) xs)) s
      ∙ length-filter-append_new (is_identified source key) db.observations o h k

  Ends-IsDelivered :
      (db db' : Database) (r : IngestResult)
      → platform.parse_uuid (platform.show_uuid pipeline.source_instance_id)
        ≡ some pipeline.source_instance_id
      → r.status ≡ persisted
      → Ends platform frigate draws pipeline message stream cursor db db' r
      → IsDelivered db db'
  unfolding with_history
  Ends-IsDelivered db db' r parsed k (repeated (e, known, s) moved) = absurd cc
  Ends-IsDelivered db db' r parsed k (set_aside (payload, safe, e, s) moved) = absurd cc
  Ends-IsDelivered db db' r parsed k (left_out (payload, safe, e, s) moved) = absurd cc
  Ends-IsDelivered db db' r parsed k
        (stored (payload, event, history, internal, safe, n, g, e, s) moved) =
      let source = pipeline.source_instance_id in
      let told = with_history history event in
      let o =
        observation_of platform frigate draws pipeline message stream cursor (draws.id 0) told in
      let same =
        normalize-source platform frigate
          (incoming platform frigate draws pipeline message stream cursor payload) event n in
      let here : Observations.has_key source event.dedupe_key o ≡ true =
        ground (arith, ==_refl event.dedupe_key) in
      (
        o,
        outbox_row platform frigate draws internal told,
        ap (λ t. t.0) s,
        ap (λ t. t.1) s,
        observe-row told internal source db' same parsed
            (row_count-new source event.dedupe_key db db' o g here (ap (λ t. t.0) s)),
      )

  -- Where `UUID(str(id))` gives the source's id back, a message that is persisted leaves one more
  -- observation and one more outbox event, and the consumer of that event finds the observation: it
  -- ends well, and marks the rows with its source and key, and nothing else, as processed.
  pub ingest-IsDelivered :
      (db db' : Database) (r : IngestResult)
      → platform.parse_uuid (platform.show_uuid pipeline.source_instance_id)
        ≡ some pipeline.source_instance_id
      → r.status ≡ persisted
      → ingest platform frigate draws pipeline message stream cursor db ≡ ok (r, db')
      → IsDelivered db db'
  ingest-IsDelivered db db' r parsed k h =
      Ends-IsDelivered db db' r parsed k
        (ingest-Ends platform frigate draws pipeline message stream cursor db db' r h)
