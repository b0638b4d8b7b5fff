-- ===== src/Tests/WorkerRun.antt =====
-- A run of pipeline/worker.py against a Redis that keeps a list of pending messages and a list of
-- dead letters.
use nanexus_event_intelligen.Prelude.{
  ℕ, ◌+◌, String, ◌≡◌, refl, sym, ap, ◌∙◌, ◌⊎◌, inl, inr, true, false, not, none, some, List, [],
  ◌∷◌, map, filter, Member, lookup, ◌==◌, string_eq, ==_eq, Bool-cases,
}
use nanexus_event_intelligen.Core.{ok}
use nanexus_event_intelligen.Core.Payload.{obj, end}
use nanexus_event_intelligen.Pipeline.Config.{defaults}
use nanexus_event_intelligen.Pipeline.Outbox.{Entry}
use nanexus_event_intelligen.Pipeline.Worker.{
  value, WorkerRedis, World, Command, xadd, xack, claimed, RedisStreamWorker, run_once,
}
use nanexus_event_intelligen.Pipeline.Worker.Decode.{Message, Raw, str}
use nanexus_event_intelligen.Pipeline.Worker.Laws.{StreamLaws}
use nanexus_event_intelligen.Pipeline.Worker.NoLoss.{IsKept, WasHandled, run_once_keeps}
use nanexus_event_intelligen.Pipeline.Worker.Accounting.{
  total, Explains, process_all_accounts, process-Explains,
}
use nanexus_event_intelligen.Pipeline.Worker.{
  WorkerRunResult, dead_lettered, process_all, process, attempt, acknowledge, give_up_or_retry,
  dead_letter,
}
use nanexus_event_intelligen.Pipeline.Worker.Decode.{decode}
use nanexus_event_intelligen.Tests.Sample.{unary}

record Stream : Type 0 where
  pending : List Message
  dlq : List Entry

abbrev to_raw : Entry → List (Raw × Raw)
to_raw entry = map (λ (f : String × String). (str f.0, str f.1)) entry

abbrev without : String → List Message → List Message
without id messages = filter (λ (m : Message). not (m.0 == id)) messages

abbrev acked : String → Stream → Stream
acked id s = record s { pending = without id s.pending }

abbrev run_command : Command → Stream → Stream
run_command (xadd stream entry) s = record s { dlq = entry ∷ s.dlq }
run_command (xack stream group id) s = acked id s

abbrev run_commands : List Command → Stream → Stream
run_commands [] s = s
run_commands (c ∷ cs) s = run_commands cs (run_command c s)

abbrev redis : WorkerRedis Stream
redis = record {
  xgroup_create = λ stream group s. (value true, s);
  xreadgroup = λ group consumer stream count block s. (value [], s);
  xautoclaim = λ stream group consumer idle count s.
      (value (claimed (map (λ (m : Message). (str m.0, to_raw m.1)) s.pending)), s);
  xpending_range = λ stream group id s.
      (value (record { times_delivered = some 5; times_delivered_bytes = none } ∷ []), s);
  xack = λ stream group id s. (value 1, acked id s);
  execute = λ commands s. (value tt, run_commands commands s);
}

abbrev Pending : Stream → String → Type 0
Pending s m = Member m (map (λ (p : Message). p.0) s.pending)

abbrev InDlq : Stream → String → Type 0
InDlq s m = Member (some m) (map (lookup "source_message_id") s.dlq)

Member-without :
    (id m : String) (messages : List Message)
    → Member m (map (λ (p : Message). p.0) messages)
    → Member m (map (λ (p : Message). p.0) (without id messages)) ⊎ (m ≡ id)
Member-without id m [] h = elim h [ ]
Member-without id m (p ∷ messages) h = elim (Bool-cases (p.0 == id)) [
  | inl e ↦
      rw e (elim h [ inl q ↦ inr (q ∙ ==_eq p.0 id e) | inr k ↦ Member-without id m messages k ])
  | inr e ↦ rw e (elim h [
    | inl q ↦ inl (inl q)
    | inr k ↦ elim (Member-without id m messages k) [ inl l ↦ inl (inr l) | inr l ↦ inr l ]
  ])
]

moved :
    (id m : String) (entry : Entry) (s : Stream)
    → lookup "source_message_id" entry ≡ some id
    → Pending s m
    → Pending (acked id s) m ⊎ InDlq (record (acked id s) { dlq = entry ∷ s.dlq }) m
moved id m entry s e h = elim (Member-without id m s.pending h) [
  | inl k ↦ inl k
  | inr q ↦ inr (inl (ap some q ∙ sym e))
]

laws : StreamLaws redis defaults Pending InDlq
laws = record {
  create_pending = λ s m h. h;
  create_dlq = λ s m h. h;
  claim_pending = λ consumer s m h. h;
  claim_dlq = λ consumer s m h. h;
  read_pending = λ consumer block s m h. h;
  read_dlq = λ consumer block s m h. h;
  range_pending = λ id s m h. h;
  range_dlq = λ id s m h. h;
  ack_pending = λ id s m h. Member-without id m s.pending h;
  ack_dlq = λ id s m h. h;
  execute_pending = λ id entry s m e h. moved id m entry s e h;
  execute_dlq = λ id entry s m h. inr h;
}

-- The handler accepts every message, and counts them.
abbrev worker : RedisStreamWorker Stream ℕ
worker = record {
  redis = redis;
  config = defaults;
  consumer_name = "pipeline-a";
  handler = λ envelope n. (ok tt, n + 1);
  loads = λ _. some (obj end);
  show = unary;
  text_contains = λ part text. false;
}

abbrev whole_fields : Entry
whole_fields =
    ("outbox_id", "i")
    ∷ ("dedupe_key", "k")
    ∷ ("aggregate_type", "observation")
    ∷ ("aggregate_id", "iii")
    ∷ ("event_type", "canonical.observation.persisted")
    ∷ ("schema_version", "1.0")
    ∷ ("payload", "{}")
    ∷ []

-- One message that decodes and one that does not.
abbrev start : World Stream ℕ
start = record {
  redis = record {
    pending = ("1-0", whole_fields) ∷ ("2-0", ("payload", "{}") ∷ []) ∷ [];
    dlq = [];
  };
  handled = 0;
  group_ready = false;
}

run_once_keeps_example :
    IsKept worker Pending InDlq laws "2-0" (run_once worker start).1
    ⊎ WasHandled worker Pending InDlq laws "2-0" start
run_once_keeps_example = run_once_keeps worker Pending InDlq laws "2-0" start (inl (inr (inl refl)))

abbrev no_counts : WorkerRunResult
no_counts = record { processed = 0; failed = 0; dead_lettered = 0 }

-- The first message is handled, the second one goes to the DLQ.
process_all_accounts_example : total (record { processed = 1; failed = 0; dead_lettered = 1 }) ≡ 2
unfolding process_all process attempt decode acknowledge give_up_or_retry dead_letter
process_all_accounts_example =
    process_all_accounts worker start.redis.pending no_counts
      (record { processed = 1; failed = 0; dead_lettered = 1 }) start
      (process_all worker start.redis.pending no_counts start).1 refl

process-Explains_example :
    Explains worker
      ("2-0", ("payload", "{}") ∷ [])
      (attempt worker (("payload", "{}") ∷ []) start)
      dead_lettered
unfolding process attempt decode acknowledge give_up_or_retry dead_letter
process-Explains_example =
    process-Explains worker ("2-0", ("payload", "{}") ∷ []) start
      (process worker ("2-0", ("payload", "{}") ∷ []) start).1 dead_lettered refl
