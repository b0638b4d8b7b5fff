-- ===== src/Persistence/Repositories/RawMessages.antt =====
-- persistence/repositories.py: RawSourceMessageRepository.
use nanexus_event_intelligen.Prelude.{String, Bool, ◌&&◌, Option, eqb, ◌==◌, string_eq, find?}
use nanexus_event_intelligen.Core.{Uuid, Time}
use nanexus_event_intelligen.Core.Payload.{Fields}
use nanexus_event_intelligen.Persistence.Models.{RawSourceMessage}
use nanexus_event_intelligen.Persistence.Database.{Database, Tx, pure, ◌>>◌, insert_raw_message}

pub record NewRawSourceMessage : Type 0 where
  pub source_instance_id : Uuid
  pub transport : String
  pub channel : String
  pub schema_version : String
  pub dedupe_key : String
  pub payload : Fields
  pub payload_sha256 : String
  pub observed_at : Time
  pub quarantined : Bool
  pub quarantine_reason : Option String

abbrev pub has_key : Uuid → String → RawSourceMessage → Bool
has_key source key m = eqb m.source_instance_id source && m.dedupe_key == key

abbrev pub get_by_dedupe_key : Uuid → String → Database → Option RawSourceMessage
get_by_dedupe_key source key db = find? (has_key source key) db.raw_source_messages

abbrev pub row : Uuid → NewRawSourceMessage → RawSourceMessage
row id new = record {
  id = id;
  source_instance_id = new.source_instance_id;
  transport = new.transport;
  channel = new.channel;
  schema_version = new.schema_version;
  dedupe_key = new.dedupe_key;
  payload = new.payload;
  payload_sha256 = new.payload_sha256;
  observed_at = new.observed_at;
  quarantined = new.quarantined;
  quarantine_reason = new.quarantine_reason;
}

unfoldable pub add : Uuid → NewRawSourceMessage → Tx RawSourceMessage
add id new = do insert_raw_message (row id new); pure (row id new)
