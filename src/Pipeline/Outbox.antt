-- ===== src/Pipeline/Outbox.antt =====
-- pipeline/outbox.py: the transactional outbox publisher. Redis is a parameter: a state and the two
-- calls that the publisher makes.
pub mod Batch
pub mod AtLeastOnce
use nanexus_event_intelligen.Prelude.{
  ℕ, ◌+◌, max, String, Bool, true, false, not, ◌&&◌, ◌||◌, Option, none, some, List, [], ◌∷◌, ltb,
  leb, eqb, filter, find?, take, is_some, or_else, map, if◌then◌else◌,
}
use nanexus_event_intelligen.Prelude.Sorting.{sorted}
use nanexus_event_intelligen.Core.{Uuid, Time, Platform}
use nanexus_event_intelligen.Core.Payload.{obj}
use nanexus_event_intelligen.Persistence.Models.{OutboxEvent}
use nanexus_event_intelligen.Persistence.Database.{Database}
use nanexus_event_intelligen.Pipeline.Config.{RedisStreamConfig}

-- What a call of Redis gives: a reply, a `ResponseError` (the server refused the command), or
-- another `RedisError`, with the name of its class.
pub data Reply (A : Type 0) : Type 0 where
  reply : A → Reply A
  response_error : Reply A
  redis_error : String → Reply A

-- An entry of XINFO GROUPS. A client that decodes has the keys as texts, another as bytes; `lag` may
-- be there and be None.
pub record GroupInfo : Type 0 where
  pub pending : Option ℕ
  pub pending_bytes : Option ℕ
  pub lag : Option (Option ℕ)
  pub lag_bytes : Option (Option ℕ)

abbrev pub Entry : Type 0
Entry = List (String × String)

pub record OutboxRedis (S : Type 0) : Type 0 where
  pub xinfo_groups : String → S → Reply (List GroupInfo)
  pub xadd : String → Entry → S → Reply String × S

pub record OutboxPublishResult : Type 0 where
  pub published : ℕ
  pub failed : ℕ
  pub backpressured : Bool

-- `group.get("pending", group.get(b"pending", 0))`
abbrev pub pending_of : GroupInfo → ℕ
pending_of g = or_else g.pending (or_else g.pending_bytes 0)

-- `lag` counts 0 when it is None.
abbrev pub lag_of : GroupInfo → ℕ
lag_of g = or_else (or_else g.lag (or_else g.lag_bytes (some 0))) 0

unfoldable pub maximum : ℕ → List GroupInfo → ℕ
maximum m [] = m
maximum m (g ∷ gs) = maximum (max m (pending_of g + lag_of g)) gs

-- `_inflight_count`: a `ResponseError` counts as 0, any other error is raised.
unfoldable pub inflight_count : Reply (List GroupInfo) → Option ℕ
unfolding maximum
inflight_count (reply groups) = some (maximum 0 groups)
inflight_count response_error = some 0
inflight_count (redis_error name) = none

-- `_fields`
abbrev pub fields : Platform → OutboxEvent → Entry
fields platform event =
    ("outbox_id", platform.show_uuid event.id)
    ∷ ("dedupe_key", event.dedupe_key)
    ∷ ("aggregate_type", event.aggregate_type)
    ∷ ("aggregate_id", platform.show_uuid event.aggregate_id)
    ∷ ("event_type", event.event_type)
    ∷ ("schema_version", event.schema_version)
    ∷ ("payload", platform.dumps (obj event.payload))
    ∷ []

abbrev pub is_unpublished : OutboxEvent → Bool
is_unpublished event = not (is_some event.published_at)

-- ORDER BY created_at, id
abbrev pub created_le : OutboxEvent → OutboxEvent → Bool
created_le a b = ltb a.created_at b.created_at || (eqb a.created_at b.created_at && leb a.id b.id)

-- The rows that the SELECT locks. `locked` are those that another transaction holds (SKIP LOCKED).
unfoldable pub select_batch : ℕ → (Uuid → Bool) → List OutboxEvent → List OutboxEvent
select_batch limit locked table =
    take limit (sorted created_le (filter (λ e. is_unpublished e && not (locked e.id)) table))

abbrev pub attempted : OutboxEvent → OutboxEvent
attempted event = record event { attempts = event.attempts + 1 }

abbrev pub mark_published : Time → OutboxEvent → OutboxEvent
mark_published now event = record (attempted event) { published_at = some now; last_error = none }

abbrev pub mark_failed : String → OutboxEvent → OutboxEvent
mark_failed error event = record (attempted event) { last_error = some error }

-- `type(error).__name__` of a call that was not answered.
unfoldable pub error_name : {A : Type 0} → Reply A → Option String
error_name (reply a) = none
error_name response_error = some "ResponseError"
error_name (redis_error name) = some name

-- The state of the loop: the rows, Redis, and the counters.
pub record Progress (S : Type 0) : Type 0 where
  pub rows : List OutboxEvent
  pub redis : S
  pub published : ℕ
  pub failed : ℕ

-- Write the changed rows of the session back to the table.
abbrev pub write_back : List OutboxEvent → List OutboxEvent → List OutboxEvent
write_back rows table = map (λ row. or_else (find? (λ r. eqb r.id row.id) rows) row) table

-- One round of the loop: on an error the row is marked and the loop breaks off, otherwise the rest
-- of the loop follows.
abbrev pub settle :
    {S : Type 0}
    → Time
    → OutboxEvent
    → List OutboxEvent
    → S
    → Progress S
    → Option String
    → Progress S
settle now event later s rest (some error) = record {
  rows = mark_failed error event ∷ later;
  redis = s;
  published = 0;
  failed = 1;
}
settle now event later s rest none = record {
  rows = mark_published now event ∷ rest.rows;
  redis = rest.redis;
  published = rest.published + 1;
  failed = rest.failed;
}

module _ {S : Type 0} (redis : OutboxRedis S) (platform : Platform) (config : RedisStreamConfig)
    (now : Uuid → Time) where
  -- The loop over the rows that were selected, with the time that each round reads.
  unfoldable pub publish_rows : List OutboxEvent → S → Progress S
  publish_rows [] s = record { rows = []; redis = s; published = 0; failed = 0 }
  publish_rows (event ∷ events) s =
      let (answer, s') = redis.xadd config.stream (fields platform event) s in
      settle (now event.id) event events s' (publish_rows events s') (error_name answer)

  -- The transaction: select, publish, and write the rows back at the commit.
  unfoldable pub publish_selected :
      (Uuid → Bool) → Database → S → OutboxPublishResult × Database × S
  publish_selected locked db s =
      let done = publish_rows (select_batch config.batch_size locked db.outbox_events) s in
      (
        record { published = done.published; failed = done.failed; backpressured = false },
        record db { outbox_events = write_back done.rows db.outbox_events },
        done.redis,
      )

  -- What follows the count of messages in flight, which may have raised.
  abbrev pub after_count :
      Option ℕ → (Uuid → Bool) → Database → S → OutboxPublishResult × Database × S
  after_count none locked db s =
      (record { published = 0; failed = 1; backpressured = false }, db, s)
  after_count (some n) locked db s =
      if leb config.max_inflight_messages n
      then (record { published = 0; failed = 0; backpressured = true }, db, s)
      else publish_selected locked db s

  unfoldable pub publish_batch : (Uuid → Bool) → Database → S → OutboxPublishResult × Database × S
  publish_batch locked db s =
      after_count (inflight_count (redis.xinfo_groups config.stream s)) locked db s
