-- ===== src/Frigate/Ingest/Outcome.antt =====
-- adapters/frigate/pipeline.py: what a client of the tables sees of an ingest.
use nanexus_event_intelligen.Prelude.{
  String, ◌≡◌, refl, ap, ◌⊎◌, inl, inr, ◌≢◌, none, some, [], ◌∷◌, ◌++◌, string_eq, number_eq,
}
use nanexus_event_intelligen.Prelude.Texts.{append}
use nanexus_event_intelligen.Core.{ok, Platform, Draws}
use nanexus_event_intelligen.Persistence.Models.{Observation, OutboxEvent, IngestCheckpoint}
use nanexus_event_intelligen.Persistence.Database.{Database}
use nanexus_event_intelligen.Persistence.Repositories.Checkpoints
use nanexus_event_intelligen.Frigate.Payloads.{FrigatePlatform}
use nanexus_event_intelligen.Frigate.Replay.{FixtureMessage}
use nanexus_event_intelligen.Frigate.Ingest.{persisted, IngestResult, FrigateIngestPipeline, ingest}
use nanexus_event_intelligen.Frigate.Ingest.Rows.{outbox_row}
use nanexus_event_intelligen.Frigate.Ingest.History.{with_history}
use nanexus_event_intelligen.Frigate.Ingest.Persisted.{observation_of, IsAdvanced}
use nanexus_event_intelligen.Frigate.Ingest.Cases.{
  Ends, repeated, set_aside, left_out, stored, ingest-Ends,
}

-- Either the message is persisted, and one observation and one outbox event that announces it are
-- added, or neither table changes.
abbrev pub IsAccounted : IngestResult → Database → Database → Type 0
IsAccounted r db db' =
    ((o : Observation) × (w : OutboxEvent) × (r.status ≡ persisted)
      × (r.observation_id ≡ some o.id)
      × (db'.observations ≡ db.observations ++ o ∷ [])
      × (db'.outbox_events ≡ db.outbox_events ++ w ∷ [])
      × (w.dedupe_key ≡ append "canonical:" o.dedupe_key)
      × (w.event_type ≡ "canonical.observation.persisted"))
    ⊎ ((r.status ≢ persisted)
        × (r.observation_id ≡ none)
        × (db'.observations ≡ db.observations)
        × (db'.outbox_events ≡ db.outbox_events))

module _ (platform : Platform) (frigate : FrigatePlatform) (draws : Draws)
    (pipeline : FrigateIngestPipeline) (message : FixtureMessage) (stream cursor : String) where
  Ends-IsAccounted :
      (db db' : Database) (r : IngestResult)
      → Ends platform frigate draws pipeline message stream cursor db db' r
      → IsAccounted r db db'
  unfolding with_history
  Ends-IsAccounted db db' r (repeated (e, known, s) moved) =
      inr (cc, ap (λ (x : IngestResult). x.observation_id) e, ap (λ t. t.0) s, ap (λ t. t.1) s)
  Ends-IsAccounted db db' r (set_aside (payload, safe, e, s) moved) =
      inr (cc, ap (λ (x : IngestResult). x.observation_id) e, ap (λ t. t.0) s, ap (λ t. t.1) s)
  Ends-IsAccounted db db' r (left_out (payload, safe, e, s) moved) =
      inr (cc, ap (λ (x : IngestResult). x.observation_id) e, ap (λ t. t.0) s, ap (λ t. t.1) s)
  Ends-IsAccounted db db' r (stored (payload, event, history, internal, safe, n, g, e, s) moved) =
      inl (
        observation_of platform frigate draws pipeline message stream cursor (draws.id 0)
            (with_history history event),
        outbox_row platform frigate draws internal (with_history history event),
        ap (λ (x : IngestResult). x.status) e,
        ap (λ (x : IngestResult). x.observation_id) e,
        ap (λ t. t.0) s,
        ap (λ t. t.1) s,
        refl,
        refl,
      )

  -- An ingest that ends well has added one observation and one outbox event, whose key is that of the
  -- observation after "canonical:", and answers "persisted" with the observation's id; or it has
  -- added neither, and answers otherwise and without an id.
  pub ingest-IsAccounted :
      (db db' : Database) (r : IngestResult)
      → ingest platform frigate draws pipeline message stream cursor db ≡ ok (r, db')
      → IsAccounted r db db'
  ingest-IsAccounted db db' r h =
      Ends-IsAccounted db db' r
        (ingest-Ends platform frigate draws pipeline message stream cursor db db' r h)

  Ends-IsAdvanced :
      (db db' : Database) (r : IngestResult)
      → Ends platform frigate draws pipeline message stream cursor db db' r
      → (r.cursor ≡ cursor) × IsAdvanced platform frigate draws pipeline message stream cursor db'
  Ends-IsAdvanced db db' r (repeated p moved) = (ap (λ (x : IngestResult). x.cursor) p.0, moved)
  Ends-IsAdvanced db db' r (set_aside (payload, safe, e, s) moved) =
      (ap (λ (x : IngestResult). x.cursor) e, moved)
  Ends-IsAdvanced db db' r (left_out (payload, safe, e, s) moved) =
      (ap (λ (x : IngestResult). x.cursor) e, moved)
  Ends-IsAdvanced db db' r (stored (payload, event, history, internal, safe, n, g, e, s) moved) =
      (ap (λ (x : IngestResult). x.cursor) e, moved)

  -- Whichever way an ingest ends well (persisted, duplicate, quarantined or ignored), the checkpoint
  -- of the source's stream is at the message's cursor.
  pub ingest-IsAdvanced :
      (db db' : Database) (r : IngestResult)
      → ingest platform frigate draws pipeline message stream cursor db ≡ ok (r, db')
      → (c : IngestCheckpoint) × (Checkpoints.get pipeline.source_instance_id stream db' ≡ some c)
        × (c.cursor ≡ cursor)
  ingest-IsAdvanced db db' r h =
      (Ends-IsAdvanced db db' r
        (ingest-Ends platform frigate draws pipeline message stream cursor db db' r h)).1
