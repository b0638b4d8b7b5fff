-- ===== src/Pipeline/Worker.antt =====
-- pipeline/worker.py: the consumer-group worker. Redis and the handler are parameters: a state for
-- each, and the calls that the worker makes. A call of Redis may raise; the state that it leaves
-- behind stays.
pub mod Decode
pub mod Fields
pub mod Laws
pub mod NoLoss
pub mod Accounting
use nanexus_event_intelligen.Prelude.{
  ℕ, zero, ◌+◌, String, ◌⊎◌, inl, inr, Bool, true, false, not, ◌&&◌, ◌||◌, Option, none, some, List,
  [], ◌∷◌, ◌++◌, map, ltb, leb, or_else, if◌then◌else◌,
}
use nanexus_event_intelligen.Prelude.Texts.{append, text_length}
use nanexus_event_intelligen.Core.{Result, ok, err, Error}
use nanexus_event_intelligen.Core.Payload.{Json}
use nanexus_event_intelligen.Pipeline.Envelope.{StreamEnvelope}
use nanexus_event_intelligen.Pipeline.Config.{RedisStreamConfig}
use nanexus_event_intelligen.Pipeline.Outbox.{Entry}
use Decode.{decode, error_class, normalize_messages, Message, RawMessage}

-- An entry of XPENDING; a client that does not decode has the key as bytes.
pub record PendingItem : Type 0 where
  pub times_delivered : Option ℕ
  pub times_delivered_bytes : Option ℕ

-- What a call gives: a value, a `ResponseError` with its text, or another exception.
pub data Answer (A : Type 0) : Type 0 where
  value : A → Answer A
  refused : String → Answer A
  raised : Answer A

-- The reply of XAUTOCLAIM: fewer than two elements, or the claimed messages as the second one.
pub data ClaimReply : Type 0 where
  short : ClaimReply
  claimed : List RawMessage → ClaimReply

-- A command queued in a transaction.
pub data Command : Type 0 where
  xadd : String → Entry → Command
  xack : String → String → String → Command

pub record WorkerRedis (S : Type 0) : Type 0 where
  pub xgroup_create : String → String → S → Answer Bool × S
  pub xreadgroup : String → String → String → ℕ → Option ℕ → S → Answer (List (List RawMessage)) × S
  pub xautoclaim : String → String → String → ℕ → ℕ → S → Answer ClaimReply × S
  pub xpending_range : String → String → String → S → Answer (List PendingItem) × S
  pub xack : String → String → String → S → Answer ℕ × S
  pub execute : List Command → S → Answer (Unit {0}) × S

pub record WorkerRunResult : Type 0 where
  pub processed : ℕ
  pub failed : ℕ
  pub dead_lettered : ℕ

-- The state: Redis, what the handler writes to, and the field `_group_ready`.
pub record World (S H : Type 0) : Type 0 where
  pub redis : S
  pub handled : H
  pub group_ready : Bool

abbrev pub Act : Type 0 → Type 0 → Type 0 → Type 0
Act S H A = World S H → Answer A × World S H

module _ {S H A B : Type 0} where
  abbrev pub continue : (A → Act S H B) → Answer A → World S H → Answer B × World S H
  continue f (value a) w = f a w
  continue f (refused text) w = (refused text, w)
  continue f raised w = (raised, w)

  infixl 5 ◌>>=◌ ◌>>◌
  abbrev pub ◌>>=◌ : Act S H A → (A → Act S H B) → Act S H B
  ◌>>=◌ m f w = let (answer, w') = m w in continue f answer w'

  abbrev pub ◌>>◌ : Act S H A → Act S H B → Act S H B
  m >> k = m >>= λ _. k

abbrev pub pure : {S H A : Type 0} → A → Act S H A
pure a w = (value a, w)

-- The value, or the exception of one that could not be computed.
abbrev pub or_raised : {S H A : Type 0} → Option A → Act S H A
or_raised none w = (raised, w)
or_raised (some a) w = (value a, w)

-- A call of Redis.
abbrev pub call : {S H A : Type 0} → (S → Answer A × S) → Act S H A
call f w = let (answer, s) = f w.redis in (answer, record w { redis = s })

abbrev pub delivery_count : List PendingItem → ℕ
delivery_count [] = 1
delivery_count (p ∷ ps) = or_else p.times_delivered (or_else p.times_delivered_bytes 1)

-- `xreadgroup`'s reply: the messages of its first stream.
abbrev pub first_stream : List (List RawMessage) → List RawMessage
first_stream [] = []
first_stream (m ∷ ms) = m

abbrev pub claimed_messages : ClaimReply → List RawMessage
claimed_messages short = []
claimed_messages (claimed ms) = ms

-- `config.block_ms or None`
abbrev pub block_of : ℕ → Option ℕ
block_of zero = none
block_of n = some n

-- A dictionary entry set anew: `{**fields, key: value}`.
abbrev pub set_field : String → String → Entry → Entry
set_field k v entry = Decode.put k v entry

abbrev pub dlq_fields : (ℕ → String) → RedisStreamConfig → Message → ℕ → String → Entry
dlq_fields show config (id, fields) attempts error = set_field "error_type" error (
    set_field "delivery_attempts" (show attempts)
      (set_field "source_message_id" id (set_field "source_stream" config.stream fields)))

pub data Fate : Type 0 where
  processed failed dead_lettered : Fate

abbrev pub tally : Fate → WorkerRunResult → WorkerRunResult
tally processed r = record r { processed = r.processed + 1 }
tally failed r = record r { failed = r.failed + 1 }
tally dead_lettered r = record r { dead_lettered = r.dead_lettered + 1 }

-- The class of the exception that the handler raised, if it raised one.
abbrev pub failure_of : {A : Type 0} → Result A → Option String
failure_of (ok a) = none
failure_of (err e) = some (error_class e)

-- The constructor's check of `consumer_name`.
unfoldable pub consumer_name_valid : String → Bool
consumer_name_valid name = leb 1 (text_length name) && leb (text_length name) 128

-- The worker object, and the library functions that it calls: `json.loads`, `str(n)`, and whether a
-- text contains another.
pub record RedisStreamWorker (S H : Type 0) : Type 0 where
  pub redis : WorkerRedis S
  pub config : RedisStreamConfig
  pub consumer_name : String
  pub handler : StreamEnvelope → H → Result (Unit {0}) × H
  pub loads : String → Option Json
  pub show : ℕ → String
  pub text_contains : String → String → Bool

module _ {S H : Type 0} (self : RedisStreamWorker S H) where
  open self use {redis, config, consumer_name, handler, loads, show, text_contains}

  abbrev pub created : Answer Bool → Answer (Unit {0})
  created (value b) = value tt
  created (refused text) = if text_contains "BUSYGROUP" text then value tt else refused text
  created raised = raised

  unfoldable pub ensure_group : Act S H (Unit {0})
  ensure_group w =
      if w.group_ready
      then (value tt, w)
      else (let (answer, s) = redis.xgroup_create config.stream config.group w.redis in
          continue (λ _ v. (value tt, record v { group_ready = true })) (created answer)
            (record w { redis = s }))

  -- `envelope = self._decode(fields)`, then the handler: none, or the class of the exception.
  abbrev pub invoke : String ⊎ StreamEnvelope → World S H → Option String × World S H
  invoke (inl error) w = (some error, w)
  invoke (inr envelope) w =
      let (result, h) = handler envelope w.handled in (failure_of result, record w { handled = h })

  unfoldable pub attempt : Entry → World S H → Option String × World S H
  attempt fields w = invoke (decode loads fields) w

  unfoldable pub dead_letter : Message → ℕ → String → Act S H Fate
  dead_letter message attempts error =
      call (
        redis.execute (
          xadd config.dlq_stream (dlq_fields show config message attempts error)
          ∷ xack config.stream config.group message.0
          ∷ []))
      >>= λ _. pure dead_lettered

  unfoldable pub give_up_or_retry : Message → String → Act S H Fate
  give_up_or_retry message error = do
    items ← call (redis.xpending_range config.stream config.group message.0)
    let attempts = delivery_count items
    if leb config.max_delivery_attempts attempts
        then dead_letter message attempts error
        else pure failed

  unfoldable pub acknowledge : Message → Act S H Fate
  acknowledge message = do call (redis.xack config.stream config.group message.0); pure processed

  abbrev pub settle : Message → Option String → Act S H Fate
  settle message none = acknowledge message
  settle message (some error) = give_up_or_retry message error

  -- One round of the loop.
  unfoldable pub process : Message → Act S H Fate
  process message w = let (error, w') = attempt message.1 w in settle message error w'

  unfoldable pub process_all : List Message → WorkerRunResult → Act S H WorkerRunResult
  process_all [] result = pure result
  process_all (message ∷ messages) result =
      process message >>= λ fate. process_all messages (tally fate result)

  unfoldable pub recover_pending : Act S H (List Message)
  recover_pending = do
    response ← call (
        redis.xautoclaim config.stream config.group consumer_name config.pending_idle_ms
          config.batch_size)
    or_raised (normalize_messages (claimed_messages response))

  unfoldable pub read_new : Act S H (List Message)
  read_new = do
    response ← call (
        redis.xreadgroup config.group consumer_name config.stream config.batch_size
          (block_of config.block_ms))
    or_raised (normalize_messages (first_stream response))

  abbrev pub or_read : List Message → Act S H (List Message)
  or_read [] = read_new
  or_read (m ∷ ms) = pure (m ∷ ms)

  unfoldable pub run_once : Act S H WorkerRunResult
  run_once = do
    ensure_group
    recovered ← recover_pending
    messages ← or_read recovered
    process_all messages (record { processed = 0; failed = 0; dead_lettered = 0 })
