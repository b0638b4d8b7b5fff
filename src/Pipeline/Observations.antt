-- ===== src/Pipeline/Observations.antt =====
-- pipeline/handlers.py: the consumer that marks a persisted observation as processed.
pub mod Redelivery
use nanexus_event_intelligen.Prelude.{
  ℕ, String, Bool, true, false, not, ◌&&◌, Option, none, some, List, [], ◌∷◌, length, eqb, ◌==◌,
  string_eq, filter, update_where, if◌then◌else◌,
}
use nanexus_event_intelligen.Core.{Uuid, Time, value_error, lookup_error, Platform, Result, ok, err}
use nanexus_event_intelligen.Core.Payload.{Fields, get, as_dict, as_text}
use nanexus_event_intelligen.Persistence.Models.{Observation}
use nanexus_event_intelligen.Persistence.Database.{Database, Tx, pure, raise, ◌>>=◌, ◌>>◌}
use nanexus_event_intelligen.Pipeline.Envelope.{StreamEnvelope}

-- The WHERE clause of the UPDATE.
abbrev pub is_identified : Uuid → String → Observation → Bool
is_identified source key o = eqb o.source_instance_id source && o.dedupe_key == key

abbrev pub set_processed : Time → Observation → Observation
set_processed now o = record o { processed_at = some now }

-- `cursor.rowcount`
abbrev pub row_count : Uuid → String → Database → ℕ
row_count source key db = length (filter (is_identified source key) db.observations)

-- The UPDATE, rolled back unless it changed one row.
abbrev pub mark_processed : Time → Uuid → String → Tx (Unit {0})
mark_processed now source key db =
    if eqb (row_count source key db) 1
    then ok (
      tt,
      record db {
        observations = update_where (is_identified source key) (set_processed now) db.observations;
      },
    )
    else err (lookup_error "canonical observation was not found")

abbrev pub marked : Platform → Time → String → Option Uuid → Tx (Unit {0})
marked platform now key (some source) = mark_processed now source key
marked platform now key none = raise (value_error "badly formed hexadecimal UUID string")

abbrev pub identify : Platform → Time → Option String → Option String → Tx (Unit {0})
identify platform now (some source_id) (some key) =
    marked platform now key (platform.parse_uuid source_id)
identify platform now _ _ = raise (value_error "canonical event identity is missing")

abbrev pub process_event : Platform → Time → Option Fields → Tx (Unit {0})
process_event platform now none = raise (value_error "canonical event payload is missing")
process_event platform now (some event) =
    identify platform now (as_text (get "source_instance_id" event))
      (as_text (get "dedupe_key" event))

unfoldable pub observe : Platform → Time → StreamEnvelope → Tx (Unit {0})
observe platform now envelope =
    if envelope.event_type == "canonical.observation.persisted"
    then process_event platform now (as_dict (get "event" envelope.payload))
    else pure tt
