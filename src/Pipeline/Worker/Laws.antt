-- ===== src/Pipeline/Worker/Laws.antt =====
-- pipeline/worker.py: what the worker relies on in Redis.
use nanexus_event_intelligen.Prelude.{ℕ, String, ◌≡◌, ◌⊎◌, Option, some, [], ◌∷◌, lookup, string_eq}
use nanexus_event_intelligen.Pipeline.Config.{RedisStreamConfig}
use nanexus_event_intelligen.Pipeline.Outbox.{Entry}
use nanexus_event_intelligen.Pipeline.Worker.{WorkerRedis, xadd, xack}

-- What the worker relies on in Redis, for its stream and group: which messages are pending, which
-- are in the DLQ, and that no command but XACK and the DLQ transaction takes a pending message away.
-- XACK takes away the message that it names; the transaction of an XADD to the DLQ, of an entry that
-- names the message as its source, and an XACK of the message does both or neither.
pub record StreamLaws {S : Type 0} (redis : WorkerRedis S) (config : RedisStreamConfig)
    (Pending InDlq : S → String → Type 0) : Type 0 where
  pub create_pending :
      (s : S) (m : String)
      → Pending s m
      → Pending (redis.xgroup_create config.stream config.group s).1 m
  pub create_dlq :
      (s : S) (m : String)
      → InDlq s m
      → InDlq (redis.xgroup_create config.stream config.group s).1 m
  pub claim_pending :
      (consumer : String) (s : S) (m : String)
      → Pending s m
      → Pending
          (redis.xautoclaim config.stream config.group consumer config.pending_idle_ms
            config.batch_size s).1
          m
  pub claim_dlq :
      (consumer : String) (s : S) (m : String)
      → InDlq s m
      → InDlq
          (redis.xautoclaim config.stream config.group consumer config.pending_idle_ms
            config.batch_size s).1
          m
  pub read_pending :
      (consumer : String) (block : Option ℕ) (s : S) (m : String)
      → Pending s m
      → Pending (redis.xreadgroup config.group consumer config.stream config.batch_size block s).1 m
  pub read_dlq :
      (consumer : String) (block : Option ℕ) (s : S) (m : String)
      → InDlq s m
      → InDlq (redis.xreadgroup config.group consumer config.stream config.batch_size block s).1 m
  pub range_pending :
      (id : String) (s : S) (m : String)
      → Pending s m
      → Pending (redis.xpending_range config.stream config.group id s).1 m
  pub range_dlq :
      (id : String) (s : S) (m : String)
      → InDlq s m
      → InDlq (redis.xpending_range config.stream config.group id s).1 m
  pub ack_pending :
      (id : String) (s : S) (m : String)
      → Pending s m
      → Pending (redis.xack config.stream config.group id s).1 m ⊎ (m ≡ id)
  pub ack_dlq :
      (id : String) (s : S) (m : String)
      → InDlq s m
      → InDlq (redis.xack config.stream config.group id s).1 m
  pub execute_pending :
      (id : String) (entry : Entry) (s : S) (m : String)
      → lookup "source_message_id" entry ≡ some id
      → Pending s m
      → let s' =
          (redis.execute
            (xadd config.dlq_stream entry ∷ xack config.stream config.group id ∷ [])
            s).1 in
        Pending s' m ⊎ InDlq s' m
  pub execute_dlq :
      (id : String) (entry : Entry) (s : S) (m : String)
      → InDlq s m
      → InDlq
          (redis.execute
            (xadd config.dlq_stream entry ∷ xack config.stream config.group id ∷ [])
            s).1
          m
