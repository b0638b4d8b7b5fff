-- ===== src/Persistence/Repositories/OutboxEvents.antt =====
-- persistence/repositories.py: OutboxEventRepository.
use nanexus_event_intelligen.Prelude.{String, Option, ◌==◌, string_eq, find?}
use nanexus_event_intelligen.Persistence.Models.{OutboxEvent}
use nanexus_event_intelligen.Persistence.Database.{Database, Tx, pure, ◌>>◌, insert_outbox}

unfoldable pub get_by_dedupe_key : String → Database → Option OutboxEvent
get_by_dedupe_key key db = find? (λ (e : OutboxEvent). e.dedupe_key == key) db.outbox_events

unfoldable pub add : OutboxEvent → Tx OutboxEvent
add event = do insert_outbox event; pure event
