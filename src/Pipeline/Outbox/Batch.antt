-- ===== src/Pipeline/Outbox/Batch.antt =====
-- pipeline/outbox.py: what one batch does to the rows and to the counters.
use nanexus_event_intelligen.Prelude.{
  ℕ, ◌+◌, ◌≤◌, ◌<◌, min, max, String, ◌≡◌, refl, ap, ◌⊎◌, Bool, true, false, not, ◌&&◌, none, some,
  List, [], ◌∷◌, ◌++◌, map, arith, length, length-take, filter,
}
use nanexus_event_intelligen.Prelude.Sorting.{length-sorted}
use nanexus_event_intelligen.Core.{Uuid, Time, Platform}
use nanexus_event_intelligen.Persistence.Models.{OutboxEvent}
use nanexus_event_intelligen.Persistence.Database.{Database}
use nanexus_event_intelligen.Pipeline.Config.{RedisStreamConfig}
use nanexus_event_intelligen.Pipeline.Outbox.{
  OutboxRedis, Reply, reply, response_error, redis_error, Entry, Progress, fields, is_unpublished,
  created_le, select_batch, mark_published, mark_failed, error_name, inflight_count, publish_rows,
  publish_selected, publish_batch,
}

-- What the answer of an XADD says: it was answered, or it failed with an error of this class.
abbrev pub IsAnswered : Reply String → Type 0
IsAnswered answer = (id : String) × (answer ≡ reply id)

abbrev pub FailsWith : String → Reply String → Type 0
FailsWith error (reply id) = ⊥
FailsWith error response_error = error ≡ "ResponseError"
FailsWith error (redis_error name) = error ≡ name

module _ {S : Type 0} (redis : OutboxRedis S) (platform : Platform) (config : RedisStreamConfig)
    (now : Uuid → Time) where
  abbrev sent : OutboxEvent → S → Reply String × S
  sent event s = redis.xadd config.stream (fields platform event) s

  -- Redis answers the XADD of each of these events in turn, and ends in this state.
  abbrev pub AreSent : List OutboxEvent → S → S → Type 0
  AreSent [] s s' = s ≡ s'
  AreSent (event ∷ events) s s' = IsAnswered (sent event s).0 × AreSent events (sent event s).1 s'

  abbrev marked : List OutboxEvent → List OutboxEvent
  marked events = map (λ e. mark_published (now e.id) e) events

  -- Redis answered the XADDs of these events, and either they are all of them, or the XADD of the
  -- next event failed and it alone keeps the error.
  abbrev pub Splits : List OutboxEvent → S → Progress S → List OutboxEvent → Type 0
  Splits events s done prefix =
      (AreSent prefix s done.redis
        × (events ≡ prefix)
        × (done.rows ≡ marked prefix)
        × (done.published ≡ length prefix)
        × (done.failed ≡ 0))
      ⊎ ((s' : S) × (event : OutboxEvent) × (later : List OutboxEvent) × (error : String) × AreSent
            prefix s s'
          × FailsWith error (sent event s').0
          × (done.redis ≡ (sent event s').1)
          × (events ≡ prefix ++ event ∷ later)
          × (done.rows ≡ marked prefix ++ mark_failed error event ∷ later)
          × (done.published ≡ length prefix)
          × (done.failed ≡ 1))

  length-publish_rows :
      (events : List OutboxEvent) (s : S)
      → let done = publish_rows redis platform config now events s in
        (done.published + done.failed ≤ length events) × (done.failed ≤ 1)
  unfolding publish_rows
  length-publish_rows [] s = (omega arith, omega arith)
  length-publish_rows (event ∷ events) s =
      ground
        (arith, length-publish_rows events (redis.xadd config.stream (fields platform event) s).1)

  -- Redis answers every XADD.
  abbrev AlwaysAnswers : Type 0
  AlwaysAnswers = (entry : Entry) (s : S) → error_name (redis.xadd config.stream entry s).0 ≡ none

  publish_rows_all :
      AlwaysAnswers
      → (events : List OutboxEvent) (s : S)
      → let done = publish_rows redis platform config now events s in
        (done.published ≡ length events) × (done.failed ≡ 0)
  unfolding publish_rows
  publish_rows_all answers [] s = (refl, refl)
  publish_rows_all answers (event ∷ events) s =
      let s' = (redis.xadd config.stream (fields platform event) s).1 in
      rw (answers (fields platform event) s) (ground (arith, publish_rows_all answers events s'))

  length-select_batch_eq :
      (locked : Uuid → Bool) (table : List OutboxEvent)
      → length (select_batch config.batch_size locked table)
        ≡ min config.batch_size (length (filter (λ e. is_unpublished e && not (locked e.id)) table))
  unfolding select_batch
  length-select_batch_eq locked table =
      rw length-take (ap (min config.batch_size) (length-sorted created_le _))

  length-select_batch :
      (locked : Uuid → Bool) (table : List OutboxEvent)
      → length (select_batch config.batch_size locked table) ≤ config.batch_size
  length-select_batch locked table = omega (arith, length-select_batch_eq locked table)

  -- A batch publishes and fails at most `batch_size` rows together (or 1, were that 0), and fails at
  -- most once. Where Redis cannot say how much is in flight it fails once, and where that is at least
  -- `max_inflight_messages` it reports backpressure; in both cases it publishes nothing and leaves the
  -- rows and Redis alone. Otherwise it reports no backpressure.
  pub publish_batch_bounds :
      (locked : Uuid → Bool) (db : Database) (s : S)
      → let (result, db', s') = publish_batch redis platform config now locked db s in
        let inflight = inflight_count (redis.xinfo_groups config.stream s) in
        (result.published + result.failed ≤ max 1 config.batch_size)
        × (result.failed ≤ 1)
        × (inflight ≡ none
            → (result ≡ record { published = 0; failed = 1; backpressured = false })
              × (db' ≡ db)
              × (s' ≡ s))
        × ((n : ℕ)
            → inflight ≡ some n
            → config.max_inflight_messages ≤ n
            → (result ≡ record { published = 0; failed = 0; backpressured = true })
              × (db' ≡ db)
              × (s' ≡ s))
        × ((n : ℕ)
            → inflight ≡ some n
            → n < config.max_inflight_messages
            → result.backpressured ≡ false)
  unfolding publish_batch publish_selected
  publish_batch_bounds locked db s = ground (
    arith,
    length-publish_rows (select_batch config.batch_size locked db.outbox_events) s,
    length-select_batch locked db.outbox_events,
  )

  -- With room in flight, and while Redis answers, a batch publishes as many rows as are unpublished
  -- and not locked, up to `batch_size`, and fails none.
  pub publish_batch_full :
      (locked : Uuid → Bool) (db : Database) (s : S) (n : ℕ)
      → AlwaysAnswers
      → inflight_count (redis.xinfo_groups config.stream s) ≡ some n
      → n < config.max_inflight_messages
      → let result = (publish_batch redis platform config now locked db s).0 in
        (result.failed ≡ 0)
        × (result.published
            ≡ min config.batch_size
                (length (filter (λ e. is_unpublished e && not (locked e.id)) db.outbox_events)))
  unfolding publish_batch publish_selected
  publish_batch_full locked db s n answers e h = ground (
    arith,
    publish_rows_all answers (select_batch config.batch_size locked db.outbox_events) s,
    length-select_batch_eq locked db.outbox_events,
  )
