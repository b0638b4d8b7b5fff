-- ===== src/Frigate/Ingest/Persisted.antt =====
-- adapters/frigate/pipeline.py: what an ingest leaves in the tables.
use mathlib.Core.Path.{subst}
use nanexus_event_intelligen.Prelude.{
  String, ◌≡◌, refl, sym, ap, ◌∙◌, arith, Bool, true, false, Option, none, some, List, [], ◌∷◌,
  ◌++◌, ◌==◌, string_eq, number_eq, ==_eq, ==_refl, find?-eq_some, find?-append_new,
  find?-update_where, update_where, if◌then◌else◌,
}
use nanexus_event_intelligen.Core.{Uuid, Time, Result, ok, err, Platform, Draws}
use nanexus_event_intelligen.Core.SourceAdapter.{CanonicalSourceEvent}
use nanexus_event_intelligen.Persistence.Models.{
  Observation, RawSourceMessage, OutboxEvent, IngestCheckpoint,
}
use nanexus_event_intelligen.Persistence.Database.{
  Database, pure, insert_observation, insert_outbox, insert_raw_message, same_observation,
  same_outbox, same_raw_message, insert_checkpoint, same_checkpoint,
}
use nanexus_event_intelligen.Persistence.Database.Frames.{>>=-passed, store-appends, pure-passed}
use nanexus_event_intelligen.Persistence.Repositories.RawMessages
use nanexus_event_intelligen.Persistence.Repositories.RawMessages.{NewRawSourceMessage}
use nanexus_event_intelligen.Persistence.Repositories.Observations
use nanexus_event_intelligen.Persistence.Repositories.Observations.{NewObservation}
use nanexus_event_intelligen.Persistence.Repositories.OutboxEvents
use nanexus_event_intelligen.Persistence.Repositories.Checkpoints
use nanexus_event_intelligen.Persistence.Repositories.EntityMaps.{resolve_or_create_entity_mapping}
use nanexus_event_intelligen.Frigate.Payloads.{FrigatePlatform}
use nanexus_event_intelligen.Frigate.Replay.{FixtureMessage}
use nanexus_event_intelligen.Frigate.Ingest.{
  IngestStatus, persisted, IngestResult, FrigateIngestPipeline, attach, finish, store_event,
}
use nanexus_event_intelligen.Frigate.Ingest.Rows.{mapping_row, new_observation, outbox_row}
use nanexus_event_intelligen.Frigate.Ingest.Frame.{
  recorded, resolve-Keeps, attach-Keeps, advance-Keeps,
}

add_observation-appends :
    (id : Uuid) (now : Time) (new : NewObservation) (db db' : Database) (o : Observation)
    → Observations.add id now new db ≡ ok (o, db')
    → (o ≡ Observations.row id now new)
      × (db' ≡ record db { observations = db.observations ++ Observations.row id now new ∷ [] })
unfolding Observations.add insert_observation
add_observation-appends id now new db db' o h =
    by_result (insert_observation (Observations.row id now new) db) refl h
  where
    by_result :
        (r : Result (Unit {0} × Database))
        → insert_observation (Observations.row id now new) db ≡ r
        → Observations.flushed (Observations.row id now new) r ≡ ok (o, db')
        → (o ≡ Observations.row id now new)
          × (db' ≡ record db { observations = db.observations ++ Observations.row id now new ∷ [] })
    by_result (ok (u, db1)) k e =
        let s =
          store-appends (λ t. record db { observations = t }) same_observation
            (Observations.row id now new) db.observations db1 k in
        ground (arith, s)
    by_result (err e') k e = absurd (ground arith)

pub add_raw-appends :
    (id : Uuid) (new : NewRawSourceMessage) (db db' : Database) (m : RawSourceMessage)
    → RawMessages.add id new db ≡ ok (m, db')
    → (m ≡ RawMessages.row id new)
      × (db' ≡ record db {
        raw_source_messages = db.raw_source_messages ++ RawMessages.row id new ∷ [];
      })
unfolding RawMessages.add insert_raw_message
add_raw-appends id new db db' m h =
    let (u, db1, e1, e2) =
      >>=-passed (insert_raw_message (RawMessages.row id new)) (λ _. pure (RawMessages.row id new))
        db (m, db') h in
    let s =
      store-appends (λ t. record db { raw_source_messages = t }) same_raw_message
        (RawMessages.row id new) db.raw_source_messages db1 e1 in
    ground (arith, s)

add_outbox-appends :
    (row : OutboxEvent) (db db' : Database) (w : OutboxEvent)
    → OutboxEvents.add row db ≡ ok (w, db')
    → db' ≡ record db { outbox_events = db.outbox_events ++ row ∷ [] }
unfolding OutboxEvents.add insert_outbox
add_outbox-appends row db db' w h =
    let (u, db1, e1, e2) = >>=-passed (insert_outbox row) (λ _. pure row) db (w, db') h in
    let s =
      store-appends (λ t. record db { outbox_events = t }) same_outbox row db.outbox_events db1
        e1 in
    ground (arith, s)

-- The two tables that grow.
abbrev pub Recorded : Type 0
Recorded = List Observation × List OutboxEvent × List RawSourceMessage

abbrev pub observed : Observation → Recorded → Recorded
observed o t = (t.0 ++ o ∷ [], t.1, t.2)

abbrev pub announced : OutboxEvent → Recorded → Recorded
announced w t = (t.0, t.1 ++ w ∷ [], t.2)

module _ (platform : Platform) (frigate : FrigatePlatform) (draws : Draws)
    (pipeline : FrigateIngestPipeline) (message : FixtureMessage) (stream cursor : String) where
  -- The checkpoint of the stream is at the cursor.
  abbrev pub IsAdvanced : Database → Type 0
  IsAdvanced db =
      (c : IngestCheckpoint) × (Checkpoints.get pipeline.source_instance_id stream db ≡ some c)
      × (c.cursor ≡ cursor)

  move-cursor :
      (now : Time) (c : IngestCheckpoint) → (Checkpoints.move now cursor c).cursor ≡ cursor
  move-cursor now c = by_test (c.cursor == cursor) refl
    where
      by_test :
          (b : Bool)
          → (c.cursor == cursor) ≡ b
          → (if b then c else record c { cursor = cursor; updated_at = now }).cursor ≡ cursor
      by_test true e = ==_eq c.cursor cursor e
      by_test false e = refl

  move-is_for :
      (now : Time) (c : IngestCheckpoint)
      → Checkpoints.is_for pipeline.source_instance_id stream (Checkpoints.move now cursor c)
        ≡ Checkpoints.is_for pipeline.source_instance_id stream c
  move-is_for now c = by_test (c.cursor == cursor)
    where
      by_test :
          (b : Bool)
          → Checkpoints.is_for pipeline.source_instance_id stream
              (if b then c else record c { cursor = cursor; updated_at = now })
            ≡ Checkpoints.is_for pipeline.source_instance_id stream c
      by_test true = refl
      by_test false = refl

  advanced-IsAdvanced :
      (id : Uuid) (now : Time) (db db' : Database) (u : Unit {0}) (found : Option IngestCheckpoint)
      → Checkpoints.get pipeline.source_instance_id stream db ≡ found
      → Checkpoints.advanced id now pipeline.source_instance_id stream cursor found db ≡ ok (u, db')
      → IsAdvanced db'
  unfolding insert_checkpoint
  advanced-IsAdvanced id now db db' u none g h =
      let row = Checkpoints.new_row id now pipeline.source_instance_id stream cursor in
      let s =
        store-appends (λ t. record db { ingest_checkpoints = t }) same_checkpoint row
          db.ingest_checkpoints db' h in
      (
        row,
        ap (Checkpoints.get pipeline.source_instance_id stream) s
            ∙ find?-append_new (Checkpoints.is_for pipeline.source_instance_id stream)
                db.ingest_checkpoints row g
                (ground (arith, ==_refl stream, ==_refl pipeline.source_instance_id)),
        refl,
      )
  advanced-IsAdvanced id now db db' u (some c) g h =
      let is_for = Checkpoints.is_for pipeline.source_instance_id stream in
      let s : record db {
        ingest_checkpoints =
            update_where is_for (Checkpoints.move now cursor) db.ingest_checkpoints;
      }
          ≡ db' =
        ground arith in
      (
        Checkpoints.move now cursor c,
        ap (Checkpoints.get pipeline.source_instance_id stream) (sym s)
            ∙ find?-update_where is_for is_for (Checkpoints.move now cursor) db.ingest_checkpoints c
                (move-is_for now) g (find?-eq_some is_for db.ingest_checkpoints c g),
        move-cursor now c,
      )

  pub finish-result :
      (status : IngestStatus) (id : Option Uuid) (db db' : Database) (r : IngestResult)
      → finish platform frigate draws pipeline message stream cursor status id db ≡ ok (r, db')
      → (r ≡ record { status = status; cursor = cursor; observation_id = id })
        × (recorded db' ≡ recorded db)
        × IsAdvanced db'
  unfolding finish Checkpoints.advance
  finish-result status id db db' r h =
      let advance =
        Checkpoints.advance (draws.id 5) (draws.now 4) pipeline.source_instance_id stream cursor in
      let (u, db1, e1, h1) = >>=-passed advance _ db (r, db') h in
      let kept =
        advance-Keeps (draws.id 5) (draws.now 4) pipeline.source_instance_id stream cursor db db1 u
          e1 in
      let moved = advanced-IsAdvanced (draws.id 5) (draws.now 4) db db1 u _ refl e1 in
      let (same_result, same_tables) =
        pure-passed (record { status = status; cursor = cursor; observation_id = id }) db1 (r, db')
          h1 in
      (same_result, ap recorded (sym same_tables) ∙ kept, subst IsAdvanced same_tables moved)

  abbrev pub observation_of : Uuid → CanonicalSourceEvent → Observation
  observation_of raw_id event =
      Observations.row (draws.id 3) (draws.now 1)
        (new_observation pipeline.source_instance_id raw_id event)

  pub store_event-records :
      (event : CanonicalSourceEvent) (raw_id : Uuid) (db db' : Database) (r : IngestResult)
      → store_event platform frigate draws pipeline message stream cursor event raw_id db
        ≡ ok (r, db')
      → (internal : Uuid) × (recorded db'
          ≡ announced
              (outbox_row platform frigate draws internal event)
              (observed (observation_of raw_id event) (recorded db)))
        × (r ≡ record { status = persisted; cursor = cursor; observation_id = some (draws.id 3) })
        × IsAdvanced db'
  store_event-records event raw_id db db' r h =
      let row = mapping_row draws pipeline.source_instance_id event in
      let (m, db1, e1, h1) = >>=-passed (resolve_or_create_entity_mapping row) _ db (r, db') h in
      let (o, db2, e2, h2) =
        >>=-passed
          (Observations.add (draws.id 3) (draws.now 1)
            (new_observation pipeline.source_instance_id raw_id event))
          _ db1 (r, db') h1 in
      let internal = m.internal_entity_id in
      let (u, db3, e3, h3) =
        >>=-passed (attach platform frigate draws pipeline.source_instance_id event internal o.id) _
          db2 (r, db') h2 in
      let w = outbox_row platform frigate draws internal event in
      let (v, db4, e4, h4) = >>=-passed (OutboxEvents.add w) _ db3 (r, db') h3 in
      let (o-row, s2) =
        add_observation-appends (draws.id 3) (draws.now 1)
          (new_observation pipeline.source_instance_id raw_id event) db1 db2 o e2 in
      let (result, s5, moved) = finish-result persisted (some o.id) db4 db' r h4 in
      let s1 = resolve-Keeps row db db1 m e1 in
      let s3 =
        attach-Keeps platform frigate draws event pipeline.source_instance_id internal o.id db2 db3
          u e3 in
      let s4 = add_outbox-appends w db3 db4 v e4 in
      (
        internal,
        s5
            ∙ ap recorded s4
            ∙ ap (announced w)
                (s3 ∙ ap recorded s2 ∙ ap (observed (observation_of raw_id event)) s1),
        result
            ∙ ap
                (λ (x : Observation). record {
                  status = persisted;
                  cursor = cursor;
                  observation_id = some x.id;
                })
                o-row,
        moved,
      )
