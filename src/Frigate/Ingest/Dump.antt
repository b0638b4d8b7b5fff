-- ===== src/Frigate/Ingest/Dump.antt =====
-- adapters/frigate/pipeline.py: `event.model_dump(mode="json")`, the event in the outbox row.
use nanexus_event_intelligen.Prelude.{Option, none, some, List, map}
use nanexus_event_intelligen.Core.{Uuid, Platform}
use nanexus_event_intelligen.Core.Payload.{
  Json, Fields, end, field, null, text, bool, num, arr, obj, texts, text_or_null,
}
use nanexus_event_intelligen.Core.SourceAdapter.{
  ObjectItem, EvidenceItem, Link, CanonicalSourceEvent, kind_text, lifecycle_text,
}
use nanexus_event_intelligen.Frigate.Payloads.{FrigatePlatform}
use nanexus_event_intelligen.Processor.Service.{route_text, availability_text, items_of}

abbrev optional : {A : Type 0} → (A → Json) → Option A → Json
optional json none = null
optional json (some a) = json a

abbrev list_of : {A : Type 0} → (A → Json) → List A → Json
list_of json values = arr (items_of (map json values))

abbrev dump_object : ObjectItem → Json
dump_object o = obj (
    field "object_id" (text o.object_id) (
      field "label" (text o.label) (
        field "sub_labels" (texts o.sub_labels) (
          field "confidence" (optional num o.confidence)
            (field "stationary" (optional bool o.stationary) end)))))

abbrev pub dump_link : Link → Json
dump_link l = obj (
    field "relation" (text l.relation) (
      field "namespace" (text l.namespace)
        (field "source_entity_id" (text l.source_entity_id) end)))

abbrev pub dump_links : List Link → Json
dump_links links = list_of dump_link links

module _ (platform : Platform) (frigate : FrigatePlatform) where
  abbrev dump_evidence : EvidenceItem → Json
  dump_evidence e = obj (
      field "media_type" (text e.media_type) (
        field "source_ref" (text e.source_ref) (
          field "captured_at" (text (frigate.json_time e.captured_at)) (
            field "privacy_class" (text (route_text e.privacy_class)) (
              field "availability" (text (availability_text e.availability))
                (field "metadata_json" (obj e.metadata_json) end))))))

  -- The fields after the identity of the event.
  abbrev dump_content : CanonicalSourceEvent → Fields
  dump_content e = field "event_kind" (text (kind_text e.event_kind)) (
      field "lifecycle" (text (lifecycle_text e.lifecycle)) (
        field "occurred_at" (text (frigate.json_time e.occurred_at)) (
          field "observed_at" (text (frigate.json_time e.observed_at)) (
            field "camera_id" (optional (λ (u : Uuid). text (platform.show_uuid u)) e.camera_id) (
              field "start_at" (optional (λ t. text (frigate.json_time t)) e.start_at) (
                field "end_at" (optional (λ t. text (frigate.json_time t)) e.end_at) (
                  field "partial_history" (bool e.partial_history) (
                    field "labels" (texts e.labels) (
                      field "zones" (texts e.zones) (
                        field "objects" (list_of dump_object e.objects) (
                          field "evidence" (list_of dump_evidence e.evidence) (
                            field "links" (dump_links e.links) (
                              field "raw_ref" (text_or_null e.raw_ref)
                                (field "extensions" (obj e.extensions) end))))))))))))))

  unfoldable pub dump_event : CanonicalSourceEvent → Fields
  dump_event e = field "schema_version" (text e.schema_version) (
      field "event_id" (text (platform.show_uuid e.event_id)) (
        field "source_instance_id" (text (platform.show_uuid e.source_instance_id)) (
          field "source_namespace" (text e.source_namespace) (
            field "source_entity_id" (text e.source_entity_id) (
              field "source_revision" (text e.source_revision)
                (field "dedupe_key" (text e.dedupe_key) (dump_content e)))))))
