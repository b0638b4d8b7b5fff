-- ===== src/Frigate/Normalizer/Branches.antt =====
-- adapters/frigate/normalizer.py: the branches on the topic, each of which sets the same local variables.
use nanexus_event_intelligen.Prelude.{
  String, Bool, not, ◌||◌, Option, none, some, List, [], ◌∷◌, ◌++◌, map, ◌==◌, string_eq, contains,
  if◌then◌else◌,
}
use nanexus_event_intelligen.Prelude.Sorting.{sorted}
use nanexus_event_intelligen.Prelude.Texts.{append, text_leb}
use nanexus_event_intelligen.Core.{Result, ok, err, frigate_protocol_error}
use nanexus_event_intelligen.Core.Payload.{Json, Fields, end, field, text, bool, num}
use nanexus_event_intelligen.Core.SourceAdapter.{EventKind, ObjectItem, Link}
use nanexus_event_intelligen.Frigate.Payloads.{
  Float, LifecycleType, SubLabel, ReviewMessage, ObjectMessage, TrackedObjectUpdate,
  FrigatePlatform,
}

-- `text.endswith(suffix)`
unfoldable pub ends_with : String → String → Bool
ends_with suffix String.[] = suffix == ""
ends_with suffix (String.◌∷◌ c s) = suffix == String.◌∷◌ c s || ends_with suffix s

-- `sorted(set(texts))`
unfoldable pub distinct_texts : List String → List String
distinct_texts [] = []
distinct_texts (s ∷ ss) = if contains ss s then distinct_texts ss else s ∷ distinct_texts ss

abbrev pub sorted_set : List String → List String
sorted_set texts = sorted text_leb (distinct_texts texts)

-- `_sub_labels`
abbrev sub_labels : SubLabel → List String
sub_labels SubLabel.absent = []
sub_labels (SubLabel.single s) = s ∷ []
sub_labels (SubLabel.several ss) = ss

-- `a or b or c` on times, where only the last is sure to be there.
abbrev first_true : FrigatePlatform → Option Float → Float → Float
first_true frigate none b = b
first_true frigate (some a) b = if frigate.is_true a then a else b

abbrev text_is_true : String → Bool
text_is_true s = not (s == "")

-- `sub_label or attribute`
abbrev first_text : Option String → Option String → Option String
first_text none b = b
first_text (some a) b = if text_is_true a then some a else b

-- An entry where the value is not None.
abbrev entry : {A : Type 0} → (A → Json) → String → Option A → Fields → Fields
entry json key none rest = rest
entry json key (some a) rest = field key (json a) rest

-- The local variables that each branch sets.
pub record Parsed : Type 0 where
  pub message_type : LifecycleType
  pub namespace : String
  pub kind : EventKind
  pub entity_id : String
  pub camera : Option String
  pub start_time : Option Float
  pub end_time : Option Float
  pub revision_time : Float
  pub occurred_time : Option Float
  pub labels : List String
  pub zones : List String
  pub objects : List ObjectItem
  pub links : List Link
  pub extensions : Fields

abbrev pub severity_field : Option String → Fields
severity_field none = end
severity_field (some s) = if text_is_true s then field "severity" (text s) end else end

abbrev pub of_review : FrigatePlatform → ReviewMessage → Parsed
of_review frigate message =
    let review = message.after in
    let revision_time =
      first_true frigate review.end_time
        (first_true frigate review.«data».thumb_time review.start_time) in
    record {
      message_type = message.type;
      namespace = "frigate.review";
      kind = EventKind.review;
      entity_id = review.id;
      camera = some review.camera;
      start_time = some review.start_time;
      end_time = review.end_time;
      revision_time = revision_time;
      occurred_time = some revision_time;
      labels = sorted_set (review.«data».objects ++ review.«data».audio);
      zones = sorted_set review.«data».zones;
      objects = [];
      links =
          map
            (λ id. record {
              relation = "contains";
              namespace = "frigate.event";
              source_entity_id = id;
            })
            review.«data».detections;
      extensions = severity_field review.severity;
    }

abbrev pub of_object : FrigatePlatform → ObjectMessage → Parsed
of_object frigate message =
    let tracked = message.after in
    let revision_time =
      first_true frigate tracked.end_time
        (first_true frigate tracked.frame_time tracked.start_time) in
    record {
      message_type = message.type;
      namespace = "frigate.event";
      kind = EventKind.object;
      entity_id = tracked.id;
      camera = some tracked.camera;
      start_time = some tracked.start_time;
      end_time = tracked.end_time;
      revision_time = revision_time;
      occurred_time = some revision_time;
      labels = tracked.label ∷ [];
      zones = sorted_set (tracked.current_zones ++ tracked.entered_zones);
      objects =
          record {
            object_id = tracked.id;
            label = tracked.label;
            sub_labels = sub_labels tracked.sub_label;
            confidence = tracked.score;
            stationary = tracked.stationary;
          }
          ∷ [];
      links = [];
      extensions =
          entry bool "snapshot_available" tracked.has_snapshot
            (entry bool "clip_available" tracked.has_clip end);
    }

-- The bits of `0.0` are zero.
abbrev or_zero : Option Float → Float
or_zero none = 0
or_zero (some t) = t

abbrev pub of_update : TrackedObjectUpdate → Parsed
of_update u = record {
  message_type = LifecycleType.update;
  namespace = "frigate.event";
  kind = EventKind.object;
  entity_id = u.id;
  camera = u.camera;
  start_time = none;
  end_time = none;
  revision_time = or_zero u.timestamp;
  occurred_time = u.timestamp;
  labels = [];
  zones = [];
  objects = [];
  links = [];
  extensions = field "metadata_update_type" (text u.type) (
      entry text "description" u.description (
        entry text "recognized_name" u.name (
          entry text "license_plate" u.plate (
            entry num "score" u.score (
              entry text "model" u.model
                (entry text "classification" (first_text u.sub_label u.attribute) end))))));
}

-- `raise FrigateProtocolError("invalid Frigate MQTT payload") from error`
abbrev pub validated : {A : Type 0} → (A → Parsed) → Option A → Result Parsed
validated f none = err (frigate_protocol_error "invalid Frigate MQTT payload")
validated f (some a) = ok (f a)

-- The branches on the topic.
abbrev pub parse : FrigatePlatform → String → Fields → Result Parsed
parse frigate topic payload =
    if ends_with "/reviews" topic
    then validated (of_review frigate) (frigate.review_message payload)
    else if ends_with "/events" topic
    then validated (of_object frigate) (frigate.object_message payload)
    else if ends_with "/tracked_object_update" topic
    then validated of_update (frigate.tracked_object_update payload)
    else err (frigate_protocol_error (append "unsupported Frigate event topic: " topic))
