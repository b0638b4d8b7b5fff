-- ===== src/Frigate/Redaction.antt =====
-- adapters/frigate/redaction.py: the removal of secrets from a recorded payload. `str.lower` and the
-- substitution of URL_CREDENTIALS in a text are parameters.
pub mod Clean
use nanexus_event_intelligen.Prelude.{
  String, Bool, List, [], ◌∷◌, contains, string_eq, if◌then◌else◌,
}
use nanexus_event_intelligen.Core.Payload.{
  Json, Items, Fields, null, bool, num, text, arr, obj, nil, item, end, field,
}

-- `REDACTED`
abbrev pub redacted : String
redacted = "[REDACTED]"

-- `SENSITIVE_KEYS`
abbrev pub sensitive_keys : List String
sensitive_keys =
    "authorization" ∷ "cookie" ∷ "password" ∷ "passwd" ∷ "secret" ∷ "token" ∷ "api_key" ∷ "apikey"
    ∷ "username" ∷ "user" ∷ []

module _ (lower substitute : String → String) where
  abbrev pub is_sensitive : String → Bool
  is_sensitive key = contains sensitive_keys (lower key)

  unfoldable mutual
    pub redact : Json → Json
    redact null = null
    redact (bool b) = bool b
    redact (num n) = num n
    redact (text s) = text (substitute s)
    redact (arr items) = arr (redact_items items)
    redact (obj fields) = obj (redact_fields fields)

    pub redact_items : Items → Items
    redact_items nil = nil
    redact_items (item j items) = item (redact j) (redact_items items)

    pub redact_fields : Fields → Fields
    redact_fields end = end
    redact_fields (field key j fields) =
        field key (if is_sensitive key then text redacted else redact j) (redact_fields fields)
