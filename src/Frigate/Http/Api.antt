-- ===== src/Frigate/Http/Api.antt =====
-- adapters/frigate/http_client.py: the calls of the client, each of which makes one request. JSON,
-- UTF-8 and pydantic's reading of the answers are parameters, as is `quote(value, safe="")`.
use nanexus_event_intelligen.Prelude.{
  ℕ, String, Bool, ◌&&◌, ◌||◌, Option, none, some, List, [], ◌∷◌, ◌++◌, lookup, leb, ltb, ◌==◌,
  string_eq, or_else, if◌then◌else◌,
}
use nanexus_event_intelligen.Prelude.Texts.{append, join, text_length}
use nanexus_event_intelligen.Core.Payload.{
  Json, Items, nil, item, Fields, text, obj, arr, get, as_text,
}
use nanexus_event_intelligen.Frigate.Payloads.{Float}
use nanexus_event_intelligen.Frigate.Http.Config.{FrigateHttpConfig}
use nanexus_event_intelligen.Frigate.Http.Client.{
  Timer, Bytes, Headers, Sent, Outcome, value, failed, api, invalid, protocol_error, request,
}

-- adapters/frigate/http_models.py; a `sub_label` and the times that may be datetimes stay as JSON.
pub record FrigateEvent : Type 0 where
  pub id : String
  pub label : String
  pub camera : String
  pub start_time : Float
  pub end_time : Option Float
  pub sub_label : Option Json
  pub false_positive : Option Bool
  pub zones : List String
  pub has_clip : Bool
  pub has_snapshot : Bool
  pub «data» : Fields

pub record FrigateReview : Type 0 where
  pub id : String
  pub camera : String
  pub start_time : Json
  pub end_time : Option Json
  pub has_been_reviewed : Bool
  pub severity : String
  pub thumb_path : Option String
  pub «data» : Fields

pub record MediaResponse : Type 0 where
  pub content : Bytes
  pub content_type : String
  pub frame_time : Option String

-- The functions of Python, httpx and pydantic: `decode("utf-8")`, which may raise, `strip`,
-- `json.loads` of a text and of bytes, `quote`, `str` of a number and of a float, `model_validate`.
pub record HttpPlatform : Type 0 where
  pub decode : Bytes → Option String
  pub strip : String → String
  pub loads : String → Option Json
  pub loads_bytes : Bytes → Option Json
  pub quote : String → String
  pub show : ℕ → String
  pub show_float : Float → String
  pub frigate_event : Json → Option FrigateEvent
  pub frigate_review : Json → Option FrigateReview
  pub timer : Timer

-- `_identifier`
unfoldable pub identifier : HttpPlatform → String → String → Outcome String
identifier http given name =
    if given == "" || ltb 512 (text_length given)
    then failed (invalid (append name " must contain 1 to 512 characters"))
    else value (http.quote given)

module _ (http : HttpPlatform) (config : FrigateHttpConfig) (server : ℕ → Sent) (reply : Sent)
    (logged_in : Bool) where
  abbrev pub requested : String → ℕ → Headers → Outcome (Bytes × Headers)
  requested path limit params =
      (request http.timer config server path limit params reply logged_in).0

  abbrev decoded : Option Json → Outcome Json
  decoded none = failed (api (protocol_error "invalid JSON response"))
  decoded (some j) = value j

  abbrev json_of : Outcome (Bytes × Headers) → Outcome Json
  json_of (failed e) = failed e
  json_of (value answer) = decoded (http.loads_bytes answer.0)

  -- `_request_json`
  unfoldable pub request_json : String → Headers → Outcome Json
  request_json path params = json_of (requested path config.max_json_bytes params)

  abbrev checked : {A : Type 0} → String → Option A → Outcome A
  checked message none = failed (api (protocol_error message))
  checked message (some a) = value a

  abbrev validated : {A : Type 0} → (Json → Option A) → String → Outcome Json → Outcome A
  validated model message (failed e) = failed e
  validated model message (value j) = checked message (model j)

  -- The path, with the quoted identifier between its parts.
  abbrev pub at_path :
      {A : Type 0} → String → String → (String → Outcome A) → Outcome String → Outcome A
  at_path before after call (failed e) = failed e
  at_path before after call (value quoted) = call (append before (append quoted after))

  -- `decoded = json.loads(text)`, or the text itself.
  abbrev or_text : String → Option Json → Json
  or_text s none = text s
  or_text s (some j) = j

  abbrev field_text : Option String → Outcome String
  field_text none = failed (api (protocol_error "invalid version response"))
  field_text (some version) = value version

  abbrev version_of : Json → Outcome String
  version_of (text s) =
      if s == "" then failed (api (protocol_error "invalid version response")) else value s
  version_of (obj fields) = field_text (as_text (get "version" fields))
  version_of other = failed (api (protocol_error "invalid version response"))

  -- A body that is no UTF-8 raises UnicodeDecodeError, which is a ValueError.
  abbrev version_text : Option String → Outcome String
  version_text none = failed (invalid "invalid start byte")
  version_text (some s) = version_of (or_text (http.strip s) (http.loads (http.strip s)))

  abbrev version_from : Outcome (Bytes × Headers) → Outcome String
  version_from (failed e) = failed e
  version_from (value answer) = version_text (http.decode answer.0)

  unfoldable pub get_version : Outcome String
  get_version = version_from (requested "/api/version" config.max_json_bytes [])

  unfoldable pub get_event : String → Outcome FrigateEvent
  get_event event_id =
      at_path "/api/events/" ""
        (λ path. validated http.frigate_event "invalid event response" (request_json path []))
        (identifier http event_id "event_id")

  unfoldable pub get_review : String → Outcome FrigateReview
  get_review review_id =
      at_path "/api/review/" ""
        (λ path. validated http.frigate_review "invalid review response" (request_json path []))
        (identifier http review_id "review_id")

  unfoldable pub get_review_for_event : String → Outcome FrigateReview
  get_review_for_event event_id =
      at_path "/api/review/event/" ""
        (λ path. validated http.frigate_review "invalid review response" (request_json path []))
        (identifier http event_id "event_id")

  abbrev optional_param : String → Option String → Headers
  optional_param key none = []
  optional_param key (some s) = (key, s) ∷ []

  abbrev shown : Option Float → Option String
  shown none = none
  shown (some t) = some (http.show_float t)

  abbrev cameras_of : List String → Option String
  cameras_of [] = none
  cameras_of (c ∷ cs) = some (join "," (c ∷ cs))

  abbrev more_events : Option FrigateEvent → Option (List FrigateEvent) → Option (List FrigateEvent)
  more_events (some e) (some es) = some (e ∷ es)
  more_events _ _ = none

  unfoldable pub events_of : Items → Option (List FrigateEvent)
  events_of nil = some []
  events_of (item j items) = more_events (http.frigate_event j) (events_of items)

  abbrev listed : Outcome Json → Outcome (List FrigateEvent)
  listed (failed e) = failed e
  listed (value (arr items)) = checked "invalid events response" (events_of items)
  listed (value other) = failed (api (protocol_error "invalid events response"))

  unfoldable pub list_events :
      Option Float → Option Float → List String → ℕ → Outcome (List FrigateEvent)
  list_events after before cameras limit =
      if leb 1 limit && leb limit 500
      then listed (
          request_json "/api/events" (
            ("limit", http.show limit)
              ∷ ("include_thumbnails", "0")
              ∷ optional_param "after" (shown after)
            ++ optional_param "before" (shown before)
            ++ optional_param "cameras" (cameras_of cameras)))
      else failed (invalid "limit must be between 1 and 500")

  abbrev pub content_type_of : Headers → String
  content_type_of headers = or_else (lookup "content-type" headers) "application/octet-stream"

  abbrev pub snapshot_from : Outcome (Bytes × Headers) → Outcome MediaResponse
  snapshot_from (failed e) = failed e
  snapshot_from (value answer) = value (record {
    content = answer.0;
    content_type = content_type_of answer.1;
    frame_time = lookup "x-frame-time" answer.1;
  })

  unfoldable pub get_event_snapshot : String → Outcome MediaResponse
  get_event_snapshot event_id =
      at_path "/api/events/" "/snapshot.jpg"
        (λ path. snapshot_from (requested path config.max_media_bytes []))
        (identifier http event_id "event_id")

  abbrev preview_from : Outcome (Bytes × Headers) → Outcome MediaResponse
  preview_from (failed e) = failed e
  preview_from (value answer) =
      value
        (record { content = answer.0; content_type = content_type_of answer.1; frame_time = none })

  unfoldable pub get_review_preview : String → Outcome MediaResponse
  get_review_preview review_id =
      at_path "/api/review/" "/preview"
        (λ path. preview_from (requested path config.max_media_bytes []))
        (identifier http review_id "review_id")
