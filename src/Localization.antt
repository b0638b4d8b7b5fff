-- ===== src/Localization.antt =====
-- backend/src/nanexus_event_intelligence/localization.py: system-owned texts. A template is kept
-- parsed, as `str.format` reads it: literal text and named fields.
use nanexus_event_intelligen.Prelude.{String, Option, none, some, List, [], ◌∷◌, string_eq, lookup}
use nanexus_event_intelligen.Prelude.Texts.{append}

pub data Part : Type 0 where
  text field : String → Part

abbrev Table : Type 0
Table = List (String × List Part)

-- `_ENGLISH_MESSAGES`
abbrev pub english_messages : Table
english_messages =
    (
      "policy.person_priority_zone",
      text "Person entered a priority zone; shadow escalation recommended" ∷ [],
    )
    ∷ ("policy.person_detected", text "Person detected; shadow notification recommended" ∷ [])
    ∷ (
      "policy.stationary_non_person_update",
      text
            "All non-person objects are stationary in an update; duplicate shadow notification suppressed"
          ∷ [],
    )
    ∷ (
      "policy.vehicle_detected",
      text "Vehicle-class object detected; shadow notification recommended" ∷ [],
    )
    ∷ ("evaluation.no_rule_matched", text "No rule matched; shadow mode takes no action" ∷ [])
    ∷ ("evaluation.rule_not_matched", text "Not matched: " ∷ field "failed_checks" ∷ [])
    ∷ ("notification.title.escalate", text "Event requires attention" ∷ [])
    ∷ ("notification.title.send", text "Event detected" ∷ [])
    ∷ ("notification.body.fallback", text "Rule recommends sending a notification" ∷ [])
    ∷ ("demo.camera.entry", text "Community Demo Entrance" ∷ [])
    ∷ []

-- `template.format(**values)`; a field with no value is a `KeyError`.
abbrev pub format : List Part → List (String × String) → Option String
format [] values = some ""
format (text s ∷ parts) values = elim (format parts values) [
  | none ↦ none
  | some rest ↦ some (append s rest)
]
format (field name ∷ parts) values = fill (lookup name values) (format parts values)
  where
    fill : Option String → Option String → Option String
    fill (some v) (some rest) = some (append v rest)
    fill _ _ = none

-- `none` is an exception: an unknown message id, or a field with no value.
unfoldable pub system_text : String → List (String × String) → Option String
system_text message_id values = elim (lookup message_id english_messages) [
  | none ↦ none
  | some template ↦ format template values
]
