-- ===== src/Frigate/Normalizer.antt =====
-- adapters/frigate/normalizer.py: from a message of Frigate to the event of core/source_adapter.py.
pub mod Branches
use nanexus_event_intelligen.Prelude.{
  String, Bool, true, false, not, ◌&&◌, ◌||◌, Option, none, some, List, [], ◌∷◌, ◌++◌, map, ◌≡◌,
  refl, arith, ◌==◌, string_eq, contains, lookup, if◌then◌else◌,
}
use nanexus_event_intelligen.Prelude.Sorting.{sorted}
use nanexus_event_intelligen.Prelude.Texts.{append, join, truncate, text_leb}
use nanexus_event_intelligen.Core.{Uuid, Time, Result, ok, err, frigate_protocol_error, Platform}
use nanexus_event_intelligen.Core.Payload.{Json, Fields, end, field, text, bool, num, obj, get}
use nanexus_event_intelligen.Core.SourceAdapter.{
  EventKind, Lifecycle, lifecycle_text, ObjectItem, EvidenceItem, Link, CanonicalSourceEvent,
}
use nanexus_event_intelligen.Core.Contracts.ProcessorJob.{local_only, available}
use nanexus_event_intelligen.Frigate.Payloads.{
  Float, LifecycleType, SubLabel, ReviewMessage, ObjectMessage, TrackedObjectUpdate,
  FrigatePlatform,
}
use Branches.{Parsed, parse}

-- `EVENT_NAMESPACE`
abbrev event_namespace : Uuid
event_namespace = 246431344839031364232095430912420249251

-- `LIFECYCLE`
abbrev pub lifecycle_of : LifecycleType → Lifecycle
lifecycle_of LifecycleType.new = Lifecycle.started
lifecycle_of LifecycleType.update = Lifecycle.updated
lifecycle_of LifecycleType.end = Lifecycle.ended

-- `_at`
abbrev at : FrigatePlatform → Option Float → Time → Result Time
at frigate none fallback = ok fallback
at frigate (some t) fallback = frigate.fromtimestamp t

abbrev at_optional : FrigatePlatform → Option Float → Result (Option Time)
at_optional frigate none = ok none
at_optional frigate (some t) = elim (frigate.fromtimestamp t) [ ok a ↦ ok (some a) | err e ↦ err e ]

-- `_hash`
abbrev pub hash : Platform → Fields → String
hash platform payload = platform.sha256 (platform.dumps (obj payload))

-- `extensions.get("snapshot_available") is True`
abbrev is_json_true : Option Json → Bool
is_json_true (some (bool b)) = b
is_json_true other = false

-- The snapshot that a later fetch reads.
abbrev snapshot_item : String → Time → EvidenceItem
snapshot_item source_ref captured_at = record {
  media_type = "snapshot";
  source_ref = source_ref;
  captured_at = captured_at;
  privacy_class = local_only;
  availability = available;
  metadata_json = field "adapter" (text "frigate") (field "lazy_fetch" (bool true) end);
}

-- The evidence, by the namespace.
abbrev evidence_of : Parsed → String → Time → List EvidenceItem
evidence_of p revision occurred_at =
    if p.namespace == "frigate.event" && is_json_true (get "snapshot_available" p.extensions)
    then snapshot_item (join "" ("frigate:event:" ∷ p.entity_id ∷ ":snapshot:" ∷ revision ∷ []))
        occurred_at
      ∷ []
    else if p.namespace == "frigate.review"
    then snapshot_item (join "" ("frigate:review:" ∷ p.entity_id ∷ ":preview:" ∷ revision ∷ []))
        occurred_at
      ∷ []
    else []

abbrev camera_of : List (String × Uuid) → Option String → Option Uuid
camera_of camera_ids none = none
camera_of camera_ids (some camera) = lookup camera camera_ids

-- `message_type != "new"`
abbrev is_new : LifecycleType → Bool
is_new LifecycleType.new = true
is_new other = false

-- The arguments of `normalize_frigate_message`.
pub record Incoming : Type 0 where
  pub topic : String
  pub payload : Fields
  pub source_instance_id : Uuid
  pub camera_ids : List (String × Uuid)
  pub observed_at : Time

module _ (platform : Platform) (frigate : FrigatePlatform) where
  abbrev pub revision_of : Incoming → Parsed → String
  revision_of message p =
      join ""
        (frigate.fixed6 p.revision_time ∷ ":" ∷ truncate 12 (hash platform message.payload) ∷ [])

  abbrev pub dedupe_key_of : Incoming → Parsed → String
  dedupe_key_of message p = join ":" (
      platform.show_uuid message.source_instance_id
      ∷ p.namespace
      ∷ p.entity_id
      ∷ lifecycle_text (lifecycle_of p.message_type)
      ∷ revision_of message p
      ∷ [])

  -- The event, from the three times.
  abbrev pub event_of : Incoming → Parsed → Time → Option Time → Option Time → CanonicalSourceEvent
  event_of message p occurred_at start_at end_at = record {
    schema_version = "1.0";
    event_id = frigate.uuid5 event_namespace (dedupe_key_of message p);
    source_instance_id = message.source_instance_id;
    source_namespace = p.namespace;
    source_entity_id = p.entity_id;
    source_revision = revision_of message p;
    dedupe_key = dedupe_key_of message p;
    event_kind = p.kind;
    lifecycle = lifecycle_of p.message_type;
    occurred_at = occurred_at;
    observed_at = message.observed_at;
    camera_id = camera_of message.camera_ids p.camera;
    start_at = start_at;
    end_at = end_at;
    partial_history = not (is_new p.message_type);
    labels = p.labels;
    zones = p.zones;
    objects = p.objects;
    evidence = evidence_of p (revision_of message p) occurred_at;
    links = p.links;
    raw_ref = some (append "sha256:" (hash platform message.payload));
    extensions = p.extensions;
  }

  -- The times, in the order in which they are converted, and the event.
  abbrev envelope : Incoming → Parsed → Result CanonicalSourceEvent
  envelope message p = elim (at frigate p.occurred_time message.observed_at) [
    | err e ↦ err e
    | ok occurred_at ↦ elim (at_optional frigate p.start_time) [
      | err e ↦ err e
      | ok start_at ↦ elim (at_optional frigate p.end_time) [
        | err e ↦ err e
        | ok end_at ↦ ok (event_of message p occurred_at start_at end_at)
      ]
    ]
  ]

  abbrev pub normalized : Incoming → Result Parsed → Result CanonicalSourceEvent
  normalized message (err e) = err e
  normalized message (ok p) = envelope message p

  unfoldable pub normalize_frigate_message : Incoming → Result CanonicalSourceEvent
  normalize_frigate_message message =
      normalized message (parse frigate message.topic message.payload)

  -- The parts of an event that the branch and the message set.
  abbrev pub HasParts : Incoming → Parsed → CanonicalSourceEvent → Type 0
  HasParts message p event =
      (event.source_instance_id ≡ message.source_instance_id)
      × (event.source_namespace ≡ p.namespace)
      × (event.links ≡ p.links)
      × (event.extensions ≡ p.extensions)

  pub normalize-HasParts :
      (message : Incoming) (event : CanonicalSourceEvent)
      → normalize_frigate_message message ≡ ok event
      → (p : Parsed) × (parse frigate message.topic message.payload ≡ ok p)
        × HasParts message p event
  unfolding normalize_frigate_message
  normalize-HasParts message event h =
      of_parsed (parse frigate message.topic message.payload) refl h
    where
      of_envelope : (p : Parsed) → envelope message p ≡ ok event → HasParts message p event
      of_envelope p k = (ground arith, ground arith, ground arith, ground arith)

      of_parsed :
          (parsed : Result Parsed)
          → parse frigate message.topic message.payload ≡ parsed
          → normalized message parsed ≡ ok event
          → (p : Parsed) × (parse frigate message.topic message.payload ≡ ok p)
            × HasParts message p event
      of_parsed (err e) g k = absurd (ground arith)
      of_parsed (ok p) g k = (p, g, of_envelope p k)

  -- An event is one of the source that the message came from.
  pub normalize-source :
      (message : Incoming) (event : CanonicalSourceEvent)
      → normalize_frigate_message message ≡ ok event
      → event.source_instance_id ≡ message.source_instance_id
  normalize-source message event h =
      let (p, parsed, parts) = normalize-HasParts message event h in parts.0
