-- ===== src/Persistence/Repositories/EntityMaps.antt =====
-- persistence/repositories.py: SourceEntityMapRepository.
use nanexus_event_intelligen.Prelude.{
  String, Bool, ◌&&◌, Option, none, some, eqb, ◌==◌, string_eq, find?,
}
use nanexus_event_intelligen.Core.{Uuid}
use nanexus_event_intelligen.Persistence.Models.{SourceEntityMap}
use nanexus_event_intelligen.Persistence.Database.{
  Database, Tx, pure, gets, ◌>>=◌, ◌>>◌, insert_entity_map,
}

abbrev pub is_mapping : Uuid → String → String → SourceEntityMap → Bool
is_mapping source namespace entity m =
    eqb m.source_instance_id source && (m.namespace == namespace && m.source_entity_id == entity)

unfoldable pub add : SourceEntityMap → Tx SourceEntityMap
add mapping = do insert_entity_map mapping; pure mapping

abbrev pub resolve : Uuid → String → String → Database → Option SourceEntityMap
resolve source namespace entity db =
    find? (is_mapping source namespace entity) db.source_entity_maps

-- `resolve_or_create_entity_mapping`: the mapping that is there, or `mapping`, the new row.
abbrev pub mapped : SourceEntityMap → Option SourceEntityMap → Tx SourceEntityMap
mapped mapping (some existing) = pure existing
mapped mapping none = add mapping

unfoldable pub resolve_or_create_entity_mapping : SourceEntityMap → Tx SourceEntityMap
resolve_or_create_entity_mapping mapping = do
  existing ← gets (resolve mapping.source_instance_id mapping.namespace mapping.source_entity_id)
  mapped mapping existing
