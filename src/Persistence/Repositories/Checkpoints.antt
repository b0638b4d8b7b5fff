-- ===== src/Persistence/Repositories/Checkpoints.antt =====
-- persistence/repositories.py: IngestCheckpointRepository.
use nanexus_event_intelligen.Prelude.{
  String, Bool, ◌&&◌, Option, none, some, eqb, ◌==◌, string_eq, find?, update_where, if◌then◌else◌,
}
use nanexus_event_intelligen.Core.{Uuid, Time}
use nanexus_event_intelligen.Persistence.Models.{IngestCheckpoint}
use nanexus_event_intelligen.Persistence.Database.{
  Database, Tx, gets, modify, ◌>>=◌, insert_checkpoint,
}

abbrev pub is_for : Uuid → String → IngestCheckpoint → Bool
is_for source stream c = eqb c.source_instance_id source && c.stream == stream

abbrev pub get : Uuid → String → Database → Option IngestCheckpoint
get source stream db = find? (is_for source stream) db.ingest_checkpoints

abbrev pub new_row : Uuid → Time → Uuid → String → String → IngestCheckpoint
new_row id now source stream cursor = record {
  id = id;
  source_instance_id = source;
  stream = stream;
  cursor = cursor;
  updated_at = now;
}

-- `updated_at` is drawn anew where the row changes.
abbrev pub move : Time → String → IngestCheckpoint → IngestCheckpoint
move now cursor c = if c.cursor == cursor then c else record c { cursor = cursor; updated_at = now }

abbrev pub advanced : Uuid → Time → Uuid → String → String → Option IngestCheckpoint → Tx (Unit {0})
advanced id now source stream cursor none = insert_checkpoint (new_row id now source stream cursor)
advanced id now source stream cursor (some c) = modify λ db. record db {
  ingest_checkpoints = update_where (is_for source stream) (move now cursor) db.ingest_checkpoints;
}

unfoldable pub advance : Uuid → Time → Uuid → String → String → Tx (Unit {0})
advance id now source stream cursor = do
  found ← gets (get source stream)
  advanced id now source stream cursor found
