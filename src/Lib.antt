-- ===== src/Lib.antt =====
-- The decision and delivery core of Nanexus Event Intelligence, from
-- backend/src/nanexus_event_intelligence (all paths below are under it).
--
-- The program ingests the messages of Frigate (adapters/frigate) and stores the observations in them in
-- a database, together with outbox rows in the same transaction. The publisher (pipeline/outbox.py) moves outbox rows to a Redis
-- stream; workers (pipeline/worker.py) read the stream in consumer groups and call a handler for each
-- message. The handler of alerts/handler.py evaluates a policy over an observation and records a
-- shadow decision with an outbox row of its own; the handler of notifications/handler.py sends a
-- notification for such a decision to a webhook. An external processor takes jobs
-- (processor/service.py, api/routes/processor.py) and gives results back.
--
-- Files and code:
--   Prelude            Boolean tests, lists, equality as an interface, Python's stable
--                      `sorted`, texts
--   Core               exceptions, results, JSON values, what the platform provides; Core.Contracts:
--                      core/contracts/processor_job.py and enrichment_result.py with their validators;
--                      Core.SourceAdapter: core/source_adapter.py
--   Localization       localization.py
--   Persistence        persistence/models.py: a record for each table (Models), the tables, the
--                      transaction monad and the inserts with the unique keys (Database),
--                      persistence/repositories.py (Repositories)
--   Pipeline           pipeline/config.py (Config), pipeline/outbox.py (Outbox: publish_batch and its
--                      parts), pipeline/worker.py (Worker: run_once and its parts; Worker.Decode:
--                      _normalize_messages, _decode; Envelope: StreamEnvelope), pipeline/handlers.py
--                      (Observations)
--   Alerts             alerts/models.py, alerts/evaluator.py (evaluate), alerts/policy.py
--                      (COMMUNITY_POLICY), alerts/handler.py (Handler.handle is __call__)
--   Notifications      notifications/models.py, notifications/webhook.py (Webhook),
--                      notifications/handler.py (Request, Message, Handler; Handler.notify is
--                      __call__)
--   Processor          processor/service.py (Service), api/routes/processor.py (Access, Queue, Subject,
--                      Submission), core/evidence.py
--   Frigate            adapters/frigate: redaction.py (Redaction.redact), payloads.py (Payloads),
--                      normalizer.py (Normalizer; Normalizer.Branches for each topic), replay.py
--                      (Replay), pipeline.py (Ingest: ingest and its steps, with the rows in
--                      Ingest.Rows, Reviews, History and Dump; Ingest.Bundle: ingest_fixture_bundle),
--                      http_config.py, http_client.py and http_models.py (Http.Config, Http.Client:
--                      _request, Http.Api: each call), media_api.py and evidence_reader.py
--                      (Http.Media: snapshot, read)
--   Plugins            core/plugin.py, plugins/registry.py (register, start_all, stop_all; Versions:
--                      _version_tuple)
--   Tests              runs at concrete inputs
--
-- How code is modelled: a transaction is a function of the tables that returns its result with the new
-- tables or an exception, which leaves the tables as they were (Database.transact). A SELECT with
-- SKIP LOCKED takes the rows that other transactions hold as a parameter. Identifiers and times that a
-- call draws are a parameter (Draws); a UUID is its 128-bit value and a time the microseconds since
-- the epoch. Redis, the handler of a worker, the notification adapter, the HTTP client, the reader of
-- evidence, pydantic's reading of Frigate's payloads and the functions of Python's library are
-- parameters; a float is its 64 bits; where a theorem relies on Redis, its hypotheses name what it
-- relies on (Pipeline.Worker.Laws for the worker). A call of Redis may raise, and the state that it
-- leaves stays. Loops run over lists, or over the rounds that are left, by structural recursion, so no
-- fuel is used. Numbers are unbounded in Python; a confidence is in millionths and a timeout in milliseconds. The texts that the HTTP client reads as
-- floats of seconds may be infinite, below 0 or not a number, and the sleeper that it is given may
-- raise. Bytes that Redis returns may not decode.
--
-- Not modelled: foreign keys and the lengths of text columns, so an insert fails here only for a primary
-- or a unique key that is taken; the tables ContextSnapshot, DecisionClaim and DecisionEvidence,
-- Frigate's live worker and its recorder, replay, the API for events and review items,
-- pipeline/runtime.py and the command lines; asyncio scheduling inside one run, and the SQL that SQLAlchemy writes.
pub mod Prelude
pub mod Core
pub mod Localization
pub mod Persistence
pub mod Pipeline
pub mod Alerts
pub mod Notifications
pub mod Processor
pub mod Frigate
pub mod Plugins
pub mod Tests
