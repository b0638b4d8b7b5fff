-- ===== src/Pipeline/Outbox/AtLeastOnce.antt =====
-- pipeline/outbox.py: at-least-once delivery. Rows are committed by other transactions, batches run
-- to their commit, or a publisher crashes between XADD and the commit, in any order.
use nanexus_event_intelligen.Prelude.{
  ℕ, zero, suc, String, ◌≡◌, refl, Bool, false, Option, none, some, List, [], ◌∷◌, ◌++◌, arith,
  find?, or_else, All, All-append, All-map, Bool-cases, filter, take, leb, inl, inr,
}
use nanexus_event_intelligen.Prelude.Sorting.{All-sorted}
use nanexus_event_intelligen.Core.{Uuid, Time, Platform}
use nanexus_event_intelligen.Persistence.Models.{OutboxEvent}
use nanexus_event_intelligen.Persistence.Database.{Database}
use nanexus_event_intelligen.Pipeline.Config.{RedisStreamConfig}
use nanexus_event_intelligen.Pipeline.Outbox.{
  OutboxRedis, Entry, Progress, fields, is_unpublished, created_le, select_batch, settle,
  error_name, write_back, inflight_count, publish_rows, publish_selected, after_count,
  publish_batch,
}

All-filter :
    {A : Type 0} (P : A → Type 0) (p : A → Bool) (xs : List A) → All P xs → All P (filter p xs)
All-filter P p [] h = tt
All-filter P p (x ∷ xs) h = elim (Bool-cases (p x)) [
  | inl e ↦ rw e (h.0, All-filter P p xs h.1)
  | inr e ↦ rw e (All-filter P p xs h.1)
]

All-take : {A : Type 0} (P : A → Type 0) (n : ℕ) (xs : List A) → All P xs → All P (take n xs)
All-take P zero xs h = tt
All-take P (suc n) [] h = tt
All-take P (suc n) (x ∷ xs) h = (h.0, All-take P n xs h.1)

All-find? :
    {A : Type 0} (P : A → Type 0) (p : A → Bool) (xs : List A) (d : A)
    → All P xs
    → P d
    → P (or_else (find? p xs) d)
All-find? P p [] d h pd = pd
All-find? P p (x ∷ xs) d h pd = elim (Bool-cases (p x)) [
  | inl e ↦ rw e h.0
  | inr e ↦ rw e (All-find? P p xs d h.1 pd)
]

All-write_back :
    (P : OutboxEvent → Type 0) (rows table : List OutboxEvent)
    → All P rows
    → All P table
    → All P (write_back rows table)
All-write_back P rows [] h k = tt
All-write_back P rows (row ∷ table) h k =
    (All-find? P _ rows row h k.0, All-write_back P rows table h k.1)

settle-redis :
    {S : Type 0} (Q : S → Type 0) (now : Time) (event : OutboxEvent) (later : List OutboxEvent)
    (s : S) (rest : Progress S) (answer : Option String)
    → Q s
    → Q rest.redis
    → Q (settle now event later s rest answer).redis
settle-redis Q now event later s rest (some error) h k = h
settle-redis Q now event later s rest none h k = k

pub record World (S : Type 0) : Type 0 where
  pub db : Database
  pub redis : S

-- `Has s entry`: the entry was added to the stream. Redis keeps what it has answered for.
module _ {S : Type 0} (redis : OutboxRedis S) (platform : Platform) (config : RedisStreamConfig)
    (Has : S → Entry → Type 0) where
  abbrev pub Appends : Type 0
  Appends =
      (entry : Entry) (s : S)
      → error_name (redis.xadd config.stream entry s).0 ≡ none
      → Has (redis.xadd config.stream entry s).1 entry

  abbrev pub Keeps : Type 0
  Keeps =
      (entry other : Entry) (s : S) → Has s other → Has (redis.xadd config.stream entry s).1 other

  -- A row that counts as published was added.
  abbrev pub IsCovered : S → OutboxEvent → Type 0
  IsCovered s row = is_unpublished row ≡ false → Has s (fields platform row)

  settle-IsCovered :
      (now : Time) (event : OutboxEvent) (later : List OutboxEvent) (s : S) (rest : Progress S)
      (answer : Option String)
      → (answer ≡ none → Has rest.redis (fields platform event))
      → IsCovered s event
      → All (IsCovered s) later
      → All (IsCovered rest.redis) rest.rows
      → let done = settle now event later s rest answer in All (IsCovered done.redis) done.rows
  settle-IsCovered now event later s rest (some error) added e l r = (e, l)
  settle-IsCovered now event later s rest none added e l r = ((λ _. added refl), r)

  module _ (appended : Appends) (kept : Keeps) (now : Uuid → Time) where
    publish_rows-Has :
        (events : List OutboxEvent) (s : S) (other : Entry)
        → Has s other
        → Has (publish_rows redis platform config now events s).redis other
    unfolding publish_rows
    publish_rows-Has [] s other h = h
    publish_rows-Has (event ∷ events) s other h =
        let later = kept (fields platform event) other s h in
        settle-redis (λ t. Has t other) (now event.id) event events _ _ _ later
          (publish_rows-Has events (redis.xadd config.stream (fields platform event) s).1 other
            later)

    publish_rows-IsCovered :
        (events : List OutboxEvent) (s : S)
        → All (IsCovered s) events
        → let done = publish_rows redis platform config now events s in
          All (IsCovered done.redis) done.rows
    unfolding publish_rows
    publish_rows-IsCovered [] s h = tt
    publish_rows-IsCovered (event ∷ events) s h =
        let s' = (redis.xadd config.stream (fields platform event) s).1 in
        let keep = λ (e : OutboxEvent) (c : IsCovered s e).
          let c' : IsCovered s' e = λ p. kept (fields platform event) (fields platform e) s (c p) in
          c' in
        let moved : All (IsCovered s') events =
          All-map (IsCovered s) (IsCovered s') keep events h.1 in
        settle-IsCovered (now event.id) event events s' _ _
          (λ a.
            publish_rows-Has events s' (fields platform event)
              (appended (fields platform event) s a))
          (keep event h.0) moved (publish_rows-IsCovered events s' moved)

    All-select_batch :
        (P : OutboxEvent → Type 0) (locked : Uuid → Bool) (table : List OutboxEvent)
        → All P table
        → All P (select_batch config.batch_size locked table)
    unfolding select_batch
    All-select_batch P locked table h =
        All-take P config.batch_size _ (All-sorted created_le P _ (All-filter P _ table h))

    publish_selected-IsCovered :
        (locked : Uuid → Bool) (db : Database) (s : S)
        → All (IsCovered s) db.outbox_events
        → let (_, db', s') = publish_selected redis platform config now locked db s in
          All (IsCovered s') db'.outbox_events × All (IsCovered s') db.outbox_events
    unfolding publish_selected
    publish_selected-IsCovered locked db s h =
        let events = select_batch config.batch_size locked db.outbox_events in
        let done = publish_rows redis platform config now events s in
        let moved : All (IsCovered done.redis) db.outbox_events =
          All-map (IsCovered s) (IsCovered done.redis)
            (λ e c p. publish_rows-Has events s (fields platform e) (c p)) db.outbox_events h in
        (
          All-write_back (IsCovered done.redis) done.rows db.outbox_events
              (publish_rows-IsCovered events s (All-select_batch (IsCovered s) locked _ h)) moved,
          moved,
        )

    after_count-IsCovered :
        (count : Option ℕ) (locked : Uuid → Bool) (db : Database) (s : S)
        → All (IsCovered s) db.outbox_events
        → let (_, db', s') = after_count redis platform config now count locked db s in
          All (IsCovered s') db'.outbox_events × All (IsCovered s') db.outbox_events
    after_count-IsCovered none locked db s h = (h, h)
    after_count-IsCovered (some n) locked db s h =
        elim (Bool-cases (leb config.max_inflight_messages n)) [
          | inl full ↦ simp full (h, h)
          | inr room ↦ simp room (publish_selected-IsCovered locked db s h)
        ]

    publish_batch-IsCovered :
        (locked : Uuid → Bool) (db : Database) (s : S)
        → All (IsCovered s) db.outbox_events
        → let (_, db', s') = publish_batch redis platform config now locked db s in
          All (IsCovered s') db'.outbox_events × All (IsCovered s') db.outbox_events
    unfolding publish_batch
    publish_batch-IsCovered locked db s h =
        after_count-IsCovered (inflight_count (redis.xinfo_groups config.stream s)) locked db s h

  -- The moves of the system: a batch that commits, a batch whose publisher crashes before the commit,
  -- so that Redis has moved on and the rows have not, and the commit of a new row.
  pub data Step : World S → World S → Type 0 where
    commit :
        (w : World S) (now : Uuid → Time) (locked : Uuid → Bool)
        → Step w (
            let r = publish_batch redis platform config now locked w.db w.redis in
            record { db = r.1; redis = r.2 })
    crash :
        (w : World S) (now : Uuid → Time) (locked : Uuid → Bool)
        → Step w (
            let r = publish_batch redis platform config now locked w.db w.redis in
            record { db = w.db; redis = r.2 })
    enqueue :
        (w : World S) (row : OutboxEvent)
        → row.published_at ≡ none
        → Step w
            (record w { db = record (w.db) { outbox_events = w.db.outbox_events ++ row ∷ [] } })

  pub data Reach (w : World S) : World S → Type 0 where
    here : Reach w w
    next : {u v : World S} → Reach w u → Step u v → Reach w v

  -- Every row is covered by the stream.
  abbrev pub IsConsistent : World S → Type 0
  IsConsistent w = All (IsCovered w.redis) w.db.outbox_events

  module _ (appended : Appends) (kept : Keeps) where
    Step-IsConsistent : {w v : World S} → Step w v → IsConsistent w → IsConsistent v
    Step-IsConsistent (commit w now locked) h =
        (publish_batch-IsCovered appended kept now locked w.db w.redis h).0
    Step-IsConsistent (crash w now locked) h =
        (publish_batch-IsCovered appended kept now locked w.db w.redis h).1
    Step-IsConsistent (enqueue w row new) h =
        All-append (IsCovered w.redis) w.db.outbox_events (row ∷ []) h
          ((λ p. absurd (ground (arith, new, p))), tt)

    -- At-least-once delivery: while Redis appends what it answers for and keeps what it has, after
    -- any sequence of commits, crashes and new rows, each row marked as published has been added to
    -- the stream with its fields, if that was so at the start.
    pub Reach-IsConsistent : {w v : World S} → Reach w v → IsConsistent w → IsConsistent v
    Reach-IsConsistent here h = h
    Reach-IsConsistent (next r step) h = Step-IsConsistent step (Reach-IsConsistent r h)
