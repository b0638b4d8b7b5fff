-- ===== src/Frigate/Payloads.antt =====
-- adapters/frigate/payloads.py: the models of Frigate's MQTT payloads. That pydantic builds a model
-- from a payload, or refuses it, is a parameter, as are the operations on floats.
use nanexus_event_intelligen.Prelude.{ℕ, String, Bool, Option, List}
use nanexus_event_intelligen.Core.{Uuid, Time, Result}
use nanexus_event_intelligen.Core.Payload.{Fields}

-- A `float`, by the 64 bits of its representation.
abbrev pub Float : Type 0
Float = ℕ

pub data LifecycleType : Type 0 where
  new update end : LifecycleType

pub record ReviewData : Type 0 where
  pub detections : List String
  pub objects : List String
  pub sub_labels : List String
  pub zones : List String
  pub audio : List String
  pub thumb_time : Option Float

pub record ReviewState : Type 0 where
  pub id : String
  pub camera : String
  pub start_time : Float
  pub end_time : Option Float
  pub severity : Option String
  pub thumb_path : Option String
  pub «data» : ReviewData

pub record ReviewMessage : Type 0 where
  pub type : LifecycleType
  pub before : Option ReviewState
  pub after : ReviewState

-- `str | list[str] | None`
pub data SubLabel : Type 0 where
  absent : SubLabel
  single : String → SubLabel
  several : List String → SubLabel

-- A score is in millionths.
pub record ObjectState : Type 0 where
  pub id : String
  pub camera : String
  pub start_time : Float
  pub end_time : Option Float
  pub frame_time : Option Float
  pub label : String
  pub sub_label : SubLabel
  pub score : Option ℕ
  pub stationary : Option Bool
  pub motionless_count : Option ℕ
  pub current_zones : List String
  pub entered_zones : List String
  pub has_snapshot : Option Bool
  pub has_clip : Option Bool

pub record ObjectMessage : Type 0 where
  pub type : LifecycleType
  pub before : Option ObjectState
  pub after : ObjectState

pub record TrackedObjectUpdate : Type 0 where
  pub type : String
  pub id : String
  pub camera : Option String
  pub timestamp : Option Float
  pub «data» : Fields
  pub description : Option String
  pub name : Option String
  pub plate : Option String
  pub score : Option ℕ
  pub model : Option String
  pub sub_label : Option String
  pub attribute : Option String

-- What the adapter uses of Python and of pydantic: `bool(x)`, `datetime.fromtimestamp(x, UTC)`, which
-- may raise, `f"{x:.6f}"`, `uuid5`, `str.lower`, the substitution of URL credentials, the three calls
-- of `model_validate`, and the text of a time in `model_dump(mode="json")`.
pub record FrigatePlatform : Type 0 where
  pub is_true : Float → Bool
  pub fromtimestamp : Float → Result Time
  pub fixed6 : Float → String
  pub uuid5 : Uuid → String → Uuid
  pub lower : String → String
  pub substitute : String → String
  pub review_message : Fields → Option ReviewMessage
  pub object_message : Fields → Option ObjectMessage
  pub tracked_object_update : Fields → Option TrackedObjectUpdate
  pub json_time : Time → String
