-- ===== src/Pipeline/Worker/Accounting.antt =====
-- pipeline/worker.py: what the counters of a run count.
use nanexus_event_intelligen.Prelude.{
  ℕ, ◌+◌, ◌≤◌, ◌<◌, String, ◌≡◌, refl, Bool, true, false, Option, none, some, List, [], ◌∷◌, arith,
  leb, length, leb→le, if◌then◌else◌,
}
use mathlib.Core.Path.{subst}
use nanexus_event_intelligen.Pipeline.Worker.{
  Answer, value, refused, raised, WorkerRunResult, World, Act, continue, PendingItem,
  RedisStreamWorker, Fate, processed, failed, dead_lettered, tally, delivery_count, attempt,
  dead_letter, give_up_or_retry, acknowledge, settle, process, process_all,
}
use nanexus_event_intelligen.Pipeline.Worker.Decode.{Message}

abbrev pub total : WorkerRunResult → ℕ
total r = r.processed + r.failed + r.dead_lettered

total-tally : (fate : Fate) (r : WorkerRunResult) → total (tally fate r) ≡ total r + 1
total-tally processed r = omega arith
total-tally failed r = omega arith
total-tally dead_lettered r = omega arith

module _ {S H : Type 0} (self : RedisStreamWorker S H) where
  open self use {redis, config}

  -- The pending entry of a message was asked for, and gave this number of deliveries.
  abbrev pub Delivered : Message → World S H → ℕ → Type 0
  Delivered message w n =
      (items : List PendingItem) × ((redis.xpending_range config.stream config.group message.0
          w.redis).0
        ≡ value items)
      × (delivery_count items ≡ n)

  -- Why a message ended as it did, from the attempt at decoding and handling it.
  abbrev pub Explains : Message → Option String × World S H → Fate → Type 0
  Explains message (failure, w) processed = failure ≡ none
  Explains message (failure, w) failed =
      (error : String) × (failure ≡ some error)
      × ((n : ℕ) × Delivered message w n × (n < config.max_delivery_attempts))
  Explains message (failure, w) dead_lettered =
      (error : String) × (failure ≡ some error)
      × ((n : ℕ) × Delivered message w n × (config.max_delivery_attempts ≤ n))

  dead_lettered-only :
      (answer : Answer (Unit {0})) (u v : World S H) (fate : Fate)
      → continue {S = S} {H = H} (λ _ w. (value dead_lettered, w)) answer u ≡ (value fate, v)
      → dead_lettered ≡ fate
  dead_lettered-only (value a) u v fate h = ground arith
  dead_lettered-only (refused text) u v fate h = absurd (ground arith)
  dead_lettered-only raised u v fate h = absurd (ground arith)

  dead_letter-only :
      (message : Message) (n : ℕ) (error : String) (u v : World S H) (fate : Fate)
      → dead_letter self message n error u ≡ (value fate, v)
      → dead_lettered ≡ fate
  unfolding dead_letter
  dead_letter-only message n error u v fate h = dead_lettered-only _ _ v fate h

  retry-only :
      (u v : World S H) (fate : Fate)
      → Path (Answer Fate × World S H) (value failed, u) (value fate, v)
      → failed ≡ fate
  retry-only u v fate h = ground arith

  give_up_or_retry-Explains :
      (message : Message) (error : String) (w v : World S H) (fate : Fate)
      → give_up_or_retry self message error w ≡ (value fate, v)
      → Explains message (some error, w) fate
  unfolding give_up_or_retry
  give_up_or_retry-Explains message error w v fate h =
      by_answer (redis.xpending_range config.stream config.group message.0 w.redis).0 _ refl h
    where
      by_test :
          (items : List PendingItem) (u : World S H) (b : Bool)
          → leb config.max_delivery_attempts (delivery_count items) ≡ b
          → (redis.xpending_range config.stream config.group message.0 w.redis).0 ≡ value items
          → (if b
                then dead_letter self message (delivery_count items) error
                else (λ (x : World S H). (value failed, x)))
              u
            ≡ (value fate, v)
          → Explains message (some error, w) fate
      by_test items u true b e k =
          subst (Explains message (some error, w))
            (dead_letter-only message (delivery_count items) error u v fate k)
            (error, refl, (delivery_count items, (items, e, refl), leb→le _ _ b))
      by_test items u false b e k =
          subst (Explains message (some error, w)) (retry-only u v fate k)
            (error, refl, (delivery_count items, (items, e, refl), ground arith))

      by_answer :
          (answer : Answer (List PendingItem)) (u : World S H)
          → (redis.xpending_range config.stream config.group message.0 w.redis).0 ≡ answer
          → continue
              (λ items.
                if leb config.max_delivery_attempts (delivery_count items)
                then dead_letter self message (delivery_count items) error
                else (λ x. (value failed, x)))
              answer
              u
            ≡ (value fate, v)
          → Explains message (some error, w) fate
      by_answer (value items) u e k = by_test items u _ refl e k
      by_answer (refused text) u e k = absurd (ground arith)
      by_answer raised u e k = absurd (ground arith)

  settle-Explains :
      (message : Message) (failure : Option String) (w v : World S H) (fate : Fate)
      → settle self message failure w ≡ (value fate, v)
      → Explains message (failure, w) fate
  unfolding acknowledge
  settle-Explains message none w v processed h = refl
  settle-Explains message none w v failed h = absurd (ground arith)
  settle-Explains message none w v dead_lettered h = absurd (ground arith)
  settle-Explains message (some error) w v fate h =
      give_up_or_retry-Explains message error w v fate h

  -- A round that ends with a value counts the message as processed only if it was decoded and the
  -- handler accepted it, as failed only if that failed and Redis reports fewer deliveries than
  -- max_delivery_attempts, and as dead-lettered only if that failed and Redis reports that many or
  -- more.
  pub process-Explains :
      (message : Message) (w v : World S H) (fate : Fate)
      → process self message w ≡ (value fate, v)
      → Explains message (attempt self message.1 w) fate
  unfolding process
  process-Explains message w v fate h =
      settle-Explains message (attempt self message.1 w).0 (attempt self message.1 w).1 v fate h

  -- When the loop ends with a value, its three counters have grown by the number of messages
  -- together: each message is counted once.
  pub process_all_accounts :
      (messages : List Message) (result r : WorkerRunResult) (w v : World S H)
      → process_all self messages result w ≡ (value r, v)
      → total r ≡ total result + length messages
  unfolding process_all
  process_all_accounts [] result r w v h = ground arith
  process_all_accounts (message ∷ messages) result r w v h =
      onwards (process self message w).0 (λ fate. process_all self messages (tally fate result))
        (process self message w).1
        (λ fate u k. process_all_accounts messages (tally fate result) r u v k) h
    where
      onwards :
          (answer : Answer Fate) (f : Fate → Act S H WorkerRunResult) (u : World S H)
          → ((fate : Fate) (x : World S H)
              → f fate x ≡ (value r, v)
              → total r ≡ total (tally fate result) + length messages)
          → continue f answer u ≡ (value r, v)
          → total r ≡ total result + length (message ∷ messages)
      onwards (value fate) f u rest k = omega (arith, rest fate u k, total-tally fate result)
      onwards (refused text) f u rest k = absurd (ground arith)
      onwards raised f u rest k = absurd (ground arith)
