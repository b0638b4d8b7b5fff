-- ===== src/Pipeline.antt =====
-- backend/src/nanexus_event_intelligence/pipeline: the outbox publisher, the stream worker and its
-- built-in handler.
pub mod Envelope
pub mod Config
pub mod Outbox
pub mod Worker
pub mod Observations
