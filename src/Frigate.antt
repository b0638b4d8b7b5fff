-- ===== src/Frigate.antt =====
-- backend/src/nanexus_event_intelligence/adapters/frigate/: the ingest of Frigate's messages and the
-- client of its HTTP API.
pub mod Redaction
pub mod Payloads
pub mod Normalizer
pub mod Replay
pub mod Ingest
pub mod Http
