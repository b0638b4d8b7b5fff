-- ===== src/Core/Payload.antt =====
-- JSON values, and the reads `dict.get` that the handlers make of a decoded payload.
use nanexus_event_intelligen.Prelude.{
  ℕ, String, Bool, Option, none, some, List, [], ◌∷◌, ◌==◌, string_eq, if◌then◌else◌,
}

mutual
  pub data Json : Type 0 where
    null : Json
    bool : Bool → Json
    num : ℕ → Json
    text : String → Json
    arr : Items → Json
    obj : Fields → Json

  pub data Items : Type 0 where
    nil : Items
    item : Json → Items → Items

  pub data Fields : Type 0 where
    end : Fields
    field : String → Json → Fields → Fields

-- `d.get(key)`
abbrev pub get : String → Fields → Option Json
get key end = none
get key (field k v fs) = if k == key then some v else get key fs

-- `isinstance(value, dict)`, `isinstance(value, str)`, with the value.
abbrev pub as_dict : Option Json → Option Fields
as_dict (some (obj fs)) = some fs
as_dict other = none

abbrev pub as_text : Option Json → Option String
as_text (some (text s)) = some s
as_text other = none

abbrev pub texts : List String → Json
texts strings = arr (items strings)
  where
    items : List String → Items
    items [] = nil
    items (s ∷ ss) = item (text s) (items ss)

abbrev pub text_or_null : Option String → Json
text_or_null none = null
text_or_null (some s) = text s
