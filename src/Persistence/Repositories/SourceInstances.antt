-- ===== src/Persistence/Repositories/SourceInstances.antt =====
-- persistence/repositories.py: SourceInstanceRepository.
use nanexus_event_intelligen.Prelude.{String, ◌&&◌, Option, eqb, ◌==◌, string_eq, find?}
use nanexus_event_intelligen.Core.{Uuid}
use nanexus_event_intelligen.Persistence.Models.{SourceInstance}
use nanexus_event_intelligen.Persistence.Database.{Database, Tx, pure, ◌>>◌, insert_source}

unfoldable pub add : SourceInstance → Tx SourceInstance
add source = do insert_source source; pure source

unfoldable pub get : Uuid → Database → Option SourceInstance
get source_id db = find? (λ (s : SourceInstance). eqb s.id source_id) db.source_instances

unfoldable pub get_by_type_and_name : String → String → Database → Option SourceInstance
get_by_type_and_name source_type name db =
    find? (λ (s : SourceInstance). s.source_type == source_type && s.name == name)
      db.source_instances
