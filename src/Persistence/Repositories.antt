-- ===== src/Persistence/Repositories.antt =====
-- persistence/repositories.py: the queries and inserts that an ingest makes. A method of a repository
-- is a function in a transaction; the identifiers and times that its row draws are arguments.
pub mod SourceInstances
pub mod EntityMaps
pub mod Observations
pub mod RawMessages
pub mod Checkpoints
pub mod OutboxEvents
