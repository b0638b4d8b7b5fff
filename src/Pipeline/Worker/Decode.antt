-- ===== src/Pipeline/Worker/Decode.antt =====
-- pipeline/worker.py: messages as texts, and `_decode`.
use nanexus_event_intelligen.Prelude.{
  String, ◌⊎◌, inl, inr, Bool, true, Option, none, some, List, [], ◌∷◌, all, contains, lookup, ◌==◌,
  string_eq, if◌then◌else◌,
}
use nanexus_event_intelligen.Core.{
  Error, value_error, lookup_error, type_error, integrity_error, http_exception, delivery_error,
  duplicate_observation_error, frigate_protocol_error,
}
use nanexus_event_intelligen.Core.Payload.{Json, obj}
use nanexus_event_intelligen.Pipeline.Envelope.{StreamEnvelope}
use nanexus_event_intelligen.Pipeline.Outbox.{Entry}

infixl 5 ◌>>=◌
abbrev ◌>>=◌ : {A B : Type 0} → Option A → (A → Option B) → Option B
none >>= f = none
some a >>= f = f a

-- A value that a client of Redis returns: bytes, given as the text that they decode to, or none where
-- they are not UTF-8, or a text.
pub data Raw : Type 0 where
  bytes : Option String → Raw
  str : String → Raw

-- The text, or none where `decode` raises UnicodeDecodeError.
abbrev pub to_text : Raw → Option String
to_text (bytes decoded) = decoded
to_text (str s) = some s

abbrev pub RawMessage : Type 0
RawMessage = Raw × List (Raw × Raw)

abbrev pub Message : Type 0
Message = String × Entry

-- `d[key] = value`
abbrev pub put : String → String → Entry → Entry
put k v [] = (k, v) ∷ []
put k v ((j, w) ∷ entry) = if j == k then (k, v) ∷ entry else (j, w) ∷ put k v entry

abbrev put_all : List (Raw × Raw) → Entry → Option Entry
put_all [] entry = some entry
put_all ((k, v) ∷ raw) entry = do
  text_key ← to_text k
  text_value ← to_text v
  put_all raw (put text_key text_value entry)

-- `_normalize_messages`: for one message, and for all of them.
unfoldable pub normalize : RawMessage → Option Message
normalize (id, raw) = do identifier ← to_text id; fields ← put_all raw []; some (identifier, fields)

unfoldable pub normalize_messages : List RawMessage → Option (List Message)
normalize_messages [] = some []
normalize_messages (raw ∷ messages) = do
  message ← normalize raw
  later ← normalize_messages messages
  some (message ∷ later)

abbrev envelope_keys : List String
envelope_keys =
    "outbox_id" ∷ "dedupe_key" ∷ "aggregate_type" ∷ "aggregate_id" ∷ "event_type" ∷ "schema_version"
    ∷ "payload" ∷ []

-- `StreamEnvelope.model_validate`: every key is there, no other is, and the payload is an object.
abbrev validate :
    Option String
    → Option String
    → Option String
    → Option String
    → Option String
    → Option String
    → Json
    → Bool
    → String ⊎ StreamEnvelope
validate (some o) (some d) (some t) (some a) (some e) (some s) (obj payload) true = inr (record {
  outbox_id = o;
  dedupe_key = d;
  aggregate_type = t;
  aggregate_id = a;
  event_type = e;
  schema_version = s;
  payload = payload;
})
validate _ _ _ _ _ _ _ _ = inl "ValidationError"

abbrev with_payload : (String → Option Json) → Entry → Option String → String ⊎ StreamEnvelope
with_payload loads fields none = inl "KeyError"
with_payload loads fields (some text) = elim (loads text) [
  | none ↦ inl "JSONDecodeError"
  | some payload ↦
      validate (lookup "outbox_id" fields) (lookup "dedupe_key" fields)
        (lookup "aggregate_type" fields) (lookup "aggregate_id" fields) (lookup "event_type" fields)
        (lookup "schema_version" fields) payload
        (all (λ (kv : String × String). contains envelope_keys kv.0) fields)
]

-- `_decode`: the envelope, or the class of the exception.
unfoldable pub decode : (String → Option Json) → Entry → String ⊎ StreamEnvelope
decode loads fields = with_payload loads fields (lookup "payload" fields)

-- `type(error).__name__`
abbrev pub error_class : Error → String
error_class (value_error text) = "ValueError"
error_class (lookup_error text) = "LookupError"
error_class (type_error text) = "TypeError"
error_class integrity_error = "IntegrityError"
error_class (http_exception status detail) = "HTTPException"
error_class (delivery_error text retryable) = "DeliveryError"
error_class (duplicate_observation_error text) = "DuplicateObservationError"
error_class (frigate_protocol_error text) = "FrigateProtocolError"
