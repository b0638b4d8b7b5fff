-- ===== src/Persistence/Database.antt =====
-- The PostgreSQL database as the handlers see it: its tables, inserts that honour the unique
-- constraints of persistence/models.py, and transactions (`session.begin()`), which commit at their
-- end and roll back when an exception leaves them.
mod Tables
mod Inserts
mod SourceInserts
pub mod Frames
pub use Tables.*
unfoldable pub use Inserts.*
unfoldable pub use SourceInserts.*
