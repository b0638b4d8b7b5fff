-- ===== src/Tests/Pipeline.antt =====
-- Runs of pipeline/outbox.py against a Redis that keeps the entries of its stream.
use nanexus_event_intelligen.Prelude.{
  ℕ, ◌<◌, ◌+◌, ◌≤◌, max, ◌≡◌, refl, inl, inr, Bool, true, false, none, some, List, [], ◌∷◌, arith,
  Member, length,
}
use nanexus_event_intelligen.Core.{Uuid, Time}
use nanexus_event_intelligen.Core.Payload.{end}
use nanexus_event_intelligen.Persistence.Models.{OutboxEvent}
use nanexus_event_intelligen.Persistence.Database.{Database, empty_database}
use nanexus_event_intelligen.Pipeline.Config.{defaults}
use nanexus_event_intelligen.Pipeline.Outbox.{
  reply, OutboxRedis, Entry, error_name, inflight_count, publish_batch,
}
use nanexus_event_intelligen.Pipeline.Outbox.Batch.{publish_batch_bounds, publish_batch_full}
use nanexus_event_intelligen.Pipeline.Outbox.AtLeastOnce.{
  World, commit, crash, Reach, here, next, IsConsistent, Reach-IsConsistent,
}
use nanexus_event_intelligen.Pipeline.Observations.{observe}
use nanexus_event_intelligen.Pipeline.Observations.Redelivery.{observe_again}
use nanexus_event_intelligen.Tests.Sample.{platform, observation, with_observation, persisted}

-- Every entry of the stream is in flight.
abbrev redis : OutboxRedis (List Entry)
redis = record {
  xinfo_groups = λ stream s. reply (
      record { pending = some (length s); pending_bytes = none; lag = none; lag_bytes = none }
      ∷ []);
  xadd = λ stream entry s. (reply "1-0", entry ∷ s);
}

abbrev row : Uuid → OutboxEvent
row id = record {
  id = id;
  created_at = 5;
  aggregate_type = "observation";
  aggregate_id = 3;
  event_type = "canonical.observation.persisted";
  schema_version = "1.0";
  dedupe_key = "k";
  payload = end;
  published_at = none;
  attempts = 0;
  last_error = none;
}

abbrev two_rows : Database
two_rows = record empty_database { outbox_events = row 1 ∷ row 2 ∷ [] }

abbrev clock : Uuid → Time
clock id = id + 1000

abbrev unlocked : Uuid → Bool
unlocked id = false

abbrev Has : List Entry → Entry → Type 0
Has s entry = Member entry s

abbrev start : World (List Entry)
start = record { db = two_rows; redis = [] }

-- A crash after the XADDs, and then the batch again.
crash_and_commit : (v : World (List Entry)) × Reach redis platform defaults Has start v
crash_and_commit = (_, next (next here (crash start clock unlocked)) (commit _ clock unlocked))

Reach-IsConsistent_example : IsConsistent redis platform defaults Has crash_and_commit.0
Reach-IsConsistent_example =
    Reach-IsConsistent redis platform defaults Has (λ entry s h. inl refl)
      (λ entry other s h. inr h) crash_and_commit.1
      ((λ p. absurd (ground arith)), ((λ p. absurd (ground arith)), tt))

publish_batch_bounds_example :
    let (result, db', s') = publish_batch redis platform defaults clock unlocked two_rows [] in
    let inflight = inflight_count (redis.xinfo_groups defaults.stream []) in
    (result.published + result.failed ≤ max 1 50)
    × (result.failed ≤ 1)
    × (inflight ≡ none
        → (result ≡ record { published = 0; failed = 1; backpressured = false })
          × (db' ≡ two_rows)
          × (s' ≡ []))
    × ((n : ℕ)
        → inflight ≡ some n
        → defaults.max_inflight_messages ≤ n
        → (result ≡ record { published = 0; failed = 0; backpressured = true })
          × (db' ≡ two_rows)
          × (s' ≡ []))
    × ((n : ℕ)
        → inflight ≡ some n
        → n < defaults.max_inflight_messages
        → result.backpressured ≡ false)
publish_batch_bounds_example =
    publish_batch_bounds redis platform defaults clock unlocked two_rows []

publish_batch_full_example :
    let result = (publish_batch redis platform defaults clock unlocked two_rows []).0 in
    (result.failed ≡ 0) × (result.published ≡ 2)
unfolding error_name inflight_count
publish_batch_full_example =
    publish_batch_full redis platform defaults clock unlocked two_rows [] 0 (λ entry s. refl) refl
      (omega arith)

abbrev marked_observation : Database
marked_observation = record empty_database {
  observations = record observation { processed_at = some 800 } ∷ [];
}

observe_again_example :
    observe platform 900 persisted marked_observation
    ≡ observe platform 900 persisted with_observation
unfolding observe
observe_again_example =
    observe_again platform 800 900 persisted with_observation marked_observation refl
