-- ===== src/Persistence.antt =====
-- backend/src/nanexus_event_intelligence/persistence: the rows, the database and its transactions.
pub mod Models
pub mod Database
pub mod Repositories
