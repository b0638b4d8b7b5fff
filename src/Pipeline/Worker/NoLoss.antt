-- ===== src/Pipeline/Worker/NoLoss.antt =====
-- pipeline/worker.py: no message is lost, whatever fails on the way.
use nanexus_event_intelligen.Prelude.{
  ℕ, String, ◌≡◌, refl, sym, ◌⊎◌, inl, inr, Bool, true, false, Option, none, some, List, [], ◌∷◌,
  arith, leb, Bool-cases, string_eq, if◌then◌else◌,
}
use mathlib.Core.Path.{subst}
use nanexus_event_intelligen.Core.{Result, ok}
use nanexus_event_intelligen.Pipeline.Envelope.{StreamEnvelope}
use nanexus_event_intelligen.Pipeline.Outbox.{Entry}
use nanexus_event_intelligen.Pipeline.Worker.{
  Answer, value, refused, raised, WorkerRunResult, World, xadd, xack, Act, continue, call, ◌>>=◌,
  delivery_count, failure_of, dlq_fields, RedisStreamWorker, Fate, processed, failed, dead_lettered,
  pure, or_raised, tally, ensure_group, invoke, attempt, dead_letter, give_up_or_retry, acknowledge,
  settle, process, process_all, recover_pending, read_new, or_read, run_once, created,
  claimed_messages, first_stream, block_of,
}
use nanexus_event_intelligen.Pipeline.Worker.Laws.{StreamLaws}
use nanexus_event_intelligen.Pipeline.Worker.Fields.{dlq_fields-source}
use nanexus_event_intelligen.Pipeline.Worker.Decode.{Message, decode, normalize_messages}

module _ {S H : Type 0} (self : RedisStreamWorker S H) (Pending InDlq : S → String → Type 0)
    (laws : StreamLaws self.redis self.config Pending InDlq) where
  open self use {redis, config, consumer_name, handler, loads, show}

  abbrev Kept : String → S → Type 0
  Kept m s = Pending s m ⊎ InDlq s m

  -- The message is still to be delivered, or is in the DLQ.
  abbrev pub IsKept : String → World S H → Type 0
  IsKept m w = Kept m w.redis

  -- The fields decode to an envelope that the handler accepts in the state that it is in.
  abbrev pub IsAccepted : Entry → World S H → Type 0
  IsAccepted fields w =
      (envelope : StreamEnvelope) × (decode loads fields ≡ inr envelope)
      × ((handler envelope w.handled).0 ≡ ok tt)

  failure_of-none : (r : Result (Unit {0})) → failure_of r ≡ none → r ≡ ok tt
  failure_of-none r h = ground arith

  invoke-IsAccepted :
      (fields : Entry) (d : String ⊎ StreamEnvelope) (w : World S H)
      → decode loads fields ≡ d
      → (invoke self d w).0 ≡ none
      → IsAccepted fields w
  invoke-IsAccepted fields (inl error) w e h = absurd (ground arith)
  invoke-IsAccepted fields (inr envelope) w e h =
      (envelope, e, failure_of-none (handler envelope w.handled).0 h)

  invoke-redis : (d : String ⊎ StreamEnvelope) (w : World S H) → (invoke self d w).1.redis ≡ w.redis
  invoke-redis (inl error) w = refl
  invoke-redis (inr envelope) w = refl

  module _ (m : String) where
    -- The action loses no message, however it ends.
    abbrev Keeps : {A : Type 0} → Act S H A → Type 0
    Keeps act = (w : World S H) → IsKept m w → IsKept m (act w).1

    continue-Keeps :
        {A B : Type 0} (f : A → Act S H B) (answer : Answer A) (w : World S H)
        → ((a : A) → Keeps (f a))
        → IsKept m w
        → IsKept m (continue f answer w).1
    continue-Keeps f (value a) w k h = k a w h
    continue-Keeps f (refused text) w k h = h
    continue-Keeps f raised w k h = h

    bind-Keeps :
        {A B : Type 0} (act : Act S H A) (f : A → Act S H B)
        → Keeps act
        → ((a : A) → Keeps (f a))
        → Keeps (act >>= f)
    bind-Keeps act f k l w h = continue-Keeps f (act w).0 (act w).1 l (k w h)

    call-Keeps :
        {A B : Type 0} (f : S → Answer A × S) (g : A → Act S H B)
        → ((s : S) → Pending s m → Kept m (f s).1)
        → ((s : S) → InDlq s m → InDlq (f s).1 m)
        → ((a : A) → Keeps (g a))
        → Keeps (call f >>= g)
    call-Keeps f g p d k =
        bind-Keeps (call f) g (λ w h. elim h [ inl x ↦ p w.redis x | inr y ↦ inr (d w.redis y) ]) k

    dead_letter-Keeps :
        (message : Message) (attempts : ℕ) (error : String)
        → Keeps (dead_letter self message attempts error)
    unfolding dead_letter
    dead_letter-Keeps message attempts error =
        let entry = dlq_fields show config message attempts error in
        call-Keeps {B = Fate}
          (redis.execute
            (xadd config.dlq_stream entry ∷ xack config.stream config.group message.0 ∷ []))
          (λ _. pure dead_lettered)
          (λ s.
            laws.execute_pending message.0 entry s m
              (dlq_fields-source show config message attempts error))
          (λ s. laws.execute_dlq message.0 entry s m) (λ _ w h. h)

    give_up_or_retry-Keeps :
        (message : Message) (error : String) → Keeps (give_up_or_retry self message error)
    unfolding give_up_or_retry
    give_up_or_retry-Keeps message error =
        call-Keeps {B = Fate} (redis.xpending_range config.stream config.group message.0)
          (λ items.
            if leb config.max_delivery_attempts (delivery_count items)
            then dead_letter self message (delivery_count items) error
            else pure failed)
          (λ s p. inl (laws.range_pending message.0 s m p)) (λ s. laws.range_dlq message.0 s m)
          (λ items w h.
            elim (Bool-cases (leb config.max_delivery_attempts (delivery_count items))) [
              | inl e ↦ rw e (dead_letter-Keeps message (delivery_count items) error w h)
              | inr e ↦ rw e h
            ])

    settle-Keeps :
        (message : Message) (failure : Option String) (w : World S H)
        → IsKept m w
        → IsKept m (settle self message failure w).1 ⊎ ((failure ≡ none) × (m ≡ message.0))
    unfolding acknowledge
    settle-Keeps message (some error) w h = inl (give_up_or_retry-Keeps message error w h)
    settle-Keeps message none w (inr d) = inl (
        continue-Keeps {A = ℕ} {B = Fate} (λ _. pure processed)
          (redis.xack config.stream config.group message.0 w.redis).0
          (record w { redis = (redis.xack config.stream config.group message.0 w.redis).1 })
          (λ _ v h. h) (inr (laws.ack_dlq message.0 w.redis m d)))
    settle-Keeps message none w (inl p) = elim (laws.ack_pending message.0 w.redis m p) [
      | inr e ↦ inr (refl, e)
      | inl q ↦ inl (
          continue-Keeps {A = ℕ} {B = Fate} (λ _. pure processed)
            (redis.xack config.stream config.group message.0 w.redis).0
            (record w { redis = (redis.xack config.stream config.group message.0 w.redis).1 })
            (λ _ v h. h) (inl q))
    ]

    -- In one of the rounds over these messages, begun in this world, the message of the round has
    -- this id and the handler accepts it.
    abbrev pub IsHandled : List Message → World S H → Type 0
    IsHandled [] w = ⊥
    IsHandled (message ∷ messages) w =
        ((m ≡ message.0) × IsAccepted message.1 w)
        ⊎ ((fate : Fate) × (v : World S H) × (process self message w ≡ (value fate, v))
            × IsHandled messages v)

    process-Keeps :
        (message : Message) (w : World S H)
        → IsKept m w
        → IsKept m (process self message w).1 ⊎ ((m ≡ message.0) × IsAccepted message.1 w)
    unfolding process attempt
    process-Keeps message w h =
        let d = decode loads message.1 in
        let w' = (invoke self d w).1 in
        let kept : IsKept m w' = subst (Kept m) (sym (invoke-redis d w)) h in
        elim (settle-Keeps message (invoke self d w).0 w' kept) [
          | inl k ↦ inl k
          | inr (e, q) ↦ inr (q, invoke-IsAccepted message.1 d w refl e)
        ]

    process_all-Keeps :
        (messages : List Message) (result : WorkerRunResult) (w : World S H)
        → IsKept m w
        → IsKept m (process_all self messages result w).1 ⊎ IsHandled messages w
    unfolding process_all
    process_all-Keeps [] result w h = inl h
    process_all-Keeps (message ∷ messages) result w h = elim (process-Keeps message w h) [
      | inr accepted ↦ inr (inl accepted)
      | inl k ↦
          onwards (process self message w).0 (process self message w).1 refl k
            (λ fate v. process_all-Keeps messages (tally fate result) v)
    ]
      where
        onwards :
            (answer : Answer Fate) (v : World S H)
            → process self message w ≡ (answer, v)
            → IsKept m v
            → ((fate : Fate) (u : World S H)
                → IsKept m u
                → IsKept m (process_all self messages (tally fate result) u).1
                  ⊎ IsHandled messages u)
            → IsKept m (continue (λ fate. process_all self messages (tally fate result)) answer v).1
              ⊎ IsHandled (message ∷ messages) w
        onwards (value fate) v e k rec = elim (rec fate v k) [
          | inl l ↦ inl l
          | inr l ↦ inr (inr (fate, v, e, l))
        ]
        onwards (refused text) v e k rec = inl k
        onwards raised v e k rec = inl k

    created-Keeps :
        (answer : Answer Bool) (v : World S H)
        → IsKept m v
        → IsKept m
            (continue
              (λ _ u. (value tt, record u { group_ready = true }))
              (created self answer)
              v).1
    created-Keeps (value b) v h = h
    created-Keeps (refused text) v h = elim (Bool-cases (self.text_contains "BUSYGROUP" text)) [
      | inl e ↦ rw e h
      | inr e ↦ rw e h
    ]
    created-Keeps raised v h = h

    ensure_group-Keeps : Keeps (ensure_group self)
    unfolding ensure_group
    ensure_group-Keeps w h = by_flag _ w.group_ready (
        created-Keeps (redis.xgroup_create config.stream config.group w.redis).0
          (record w { redis = (redis.xgroup_create config.stream config.group w.redis).1 })
          (elim h [
            | inl p ↦ inl (laws.create_pending w.redis m p)
            | inr d ↦ inr (laws.create_dlq w.redis m d)
          ]))
      where
        by_flag :
            (other : Answer (Unit {0}) × World S H) (b : Bool)
            → IsKept m other.1
            → IsKept m (if b then (value tt, w) else other).1
        by_flag other true k = h
        by_flag other false k = k

    or_raised-Keeps : {A : Type 0} (found : Option A) → Keeps (or_raised found)
    or_raised-Keeps none w h = h
    or_raised-Keeps (some a) w h = h

    recover_pending-Keeps : Keeps (recover_pending self)
    unfolding recover_pending
    recover_pending-Keeps =
        call-Keeps {B = List Message}
          (redis.xautoclaim config.stream config.group consumer_name config.pending_idle_ms
            config.batch_size)
          (λ response. or_raised (normalize_messages (claimed_messages response)))
          (λ s p. inl (laws.claim_pending consumer_name s m p))
          (λ s. laws.claim_dlq consumer_name s m)
          (λ response. or_raised-Keeps (normalize_messages (claimed_messages response)))

    read_new-Keeps : Keeps (read_new self)
    unfolding read_new
    read_new-Keeps =
        call-Keeps {B = List Message}
          (redis.xreadgroup config.group consumer_name config.stream config.batch_size
            (block_of config.block_ms))
          (λ response. or_raised (normalize_messages (first_stream response)))
          (λ s p. inl (laws.read_pending consumer_name (block_of config.block_ms) s m p))
          (λ s. laws.read_dlq consumer_name (block_of config.block_ms) s m)
          (λ response. or_raised-Keeps (normalize_messages (first_stream response)))

    or_read-Keeps : (recovered : List Message) → Keeps (or_read self recovered)
    or_read-Keeps [] w h = read_new-Keeps w h
    or_read-Keeps (x ∷ xs) w h = h

    -- The run that begins in this world reads a list of messages, and in one of the rounds over them
    -- the message of the round has this id and the handler accepts it.
    abbrev pub WasHandled : World S H → Type 0
    WasHandled w =
        (w1 : World S H) × (recovered : List Message) × (w2 : World S H) × (messages : List Message)
        × (w3 : World S H) × (ensure_group self w ≡ (value tt, w1))
        × (recover_pending self w1 ≡ (value recovered, w2))
        × (or_read self recovered w2 ≡ (value messages, w3))
        × IsHandled messages w3

    bind-IsKept :
        {A B C : Type 0} (act : Act S H A) (f : A → Act S H B) (w : World S H)
        → IsKept m (act w).1
        → ((a : A) (v : World S H) → act w ≡ (value a, v) → IsKept m v → IsKept m (f a v).1 ⊎ C)
        → IsKept m ((act >>= f) w).1 ⊎ C
    bind-IsKept {A} {B} {C} act f w k l = onwards (act w).0 (act w).1 refl k
      where
        onwards :
            (answer : Answer A) (v : World S H)
            → act w ≡ (answer, v)
            → IsKept m v
            → IsKept m (continue f answer v).1 ⊎ C
        onwards (value a) v e g = l a v e g
        onwards (refused text) v e g = inl g
        onwards raised v e g = inl g

    -- A run of the worker, however it ends (a value, or an exception),
    -- leaves a message that was pending or in the DLQ still pending or in the DLQ, unless it is one of
    -- the messages that this run read and the handler accepted in its round. Redis behaves as
    -- StreamLaws says.
    pub run_once_keeps : (w : World S H) → IsKept m w → IsKept m (run_once self w).1 ⊎ WasHandled w
    unfolding run_once
    run_once_keeps w h =
        let none_yet : WorkerRunResult = record { processed = 0; failed = 0; dead_lettered = 0 } in
        bind-IsKept (ensure_group self) _ w (ensure_group-Keeps w h) λ t w1 e1 h1.
          bind-IsKept (recover_pending self) _ w1 (recover_pending-Keeps w1 h1)
            λ recovered w2 e2 h2.
              bind-IsKept (or_read self recovered) _ w2 (or_read-Keeps recovered w2 h2)
                λ messages w3 e3 h3. elim (process_all-Keeps messages none_yet w3 h3) [
                  | inl k ↦ inl k
                  | inr k ↦ inr (w1, recovered, w2, messages, w3, e1, e2, e3, k)
                ]
