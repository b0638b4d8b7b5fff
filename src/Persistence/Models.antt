-- ===== src/Persistence/Models.antt =====
-- persistence/models.py, one record for each table. A column with a CHECK constraint over a list of
-- words is a data type; other texts are strings, and a confidence is in millionths.
mod Sources
mod Events
mod Decisions
mod Processing
pub use Sources.*
pub use Events.*
pub use Decisions.*
pub use Processing.*
