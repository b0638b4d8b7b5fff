-- ===== src/Frigate/Http/Media.antt =====
-- adapters/frigate/media_api.py and evidence_reader.py: the snapshot of an event, for the API and for an
-- external processor. `fetch` is the client's `get_event_snapshot`, with a configuration; `strip` and
-- `lower` are those of Python.
pub mod Checked
pub mod Links
pub mod Evidence
use nanexus_event_intelligen.Prelude.{
  ℕ, String, Bool, true, false, not, ◌&&◌, ◌||◌, Option, none, some, List, [], ◌∷◌, contains,
  length, eqb, ltb, find?, ◌==◌, string_eq, if◌then◌else◌,
}
use nanexus_event_intelligen.Core.{Uuid, Result, ok, err}
use nanexus_event_intelligen.Core.Payload.{Json, Items, nil, item, Fields, obj, arr, get, as_text}
use nanexus_event_intelligen.Persistence.Models.{Observation, SourceInstance}
use nanexus_event_intelligen.Persistence.Database.{Database}
use nanexus_event_intelligen.Processor.Subject.{EvidenceContentRequest}
use nanexus_event_intelligen.Frigate.Http.Config.{SplitUrl, FrigateHttpConfig, config_of}
use nanexus_event_intelligen.Frigate.Http.Client.{
  Bytes, Headers, Outcome, value, failed, Failure, api, not_found_error, transient_error,
}
use nanexus_event_intelligen.Frigate.Http.Api.{MediaResponse}

-- `ALLOWED_IMAGE_TYPES`
abbrev pub allowed_image_types : List String
allowed_image_types = "image/jpeg" ∷ "image/png" ∷ "image/webp" ∷ []

-- The settings that the client is configured by.
pub record Settings : Type 0 where
  pub frigate_http_base_url : String
  pub frigate_http_bearer_token : Option String
  pub frigate_http_username : String
  pub frigate_http_password : Option String
  pub frigate_http_proxy_secret : Option String
  pub frigate_http_trusted_internal : Bool
  pub frigate_http_ca_bundle : String

-- `_secret`
abbrev secret : Option String → Option String
secret none = none
secret (some s) = if s == "" then none else some s

abbrev or_none : String → Option String
or_none s = if s == "" then none else some s

-- A value, an `HTTPException`, an `EvidenceContentUnavailable` or another exception.
pub data Reply (A : Type 0) : Type 0 where
  served : A → Reply A
  http_exception : ℕ → String → Reply A
  unavailable : String → Bool → Reply A
  raised : Failure → Reply A

abbrev pub settings_config : Settings → FrigateHttpConfig
settings_config s = record {
  base_url = s.frigate_http_base_url;
  bearer_token = secret s.frigate_http_bearer_token;
  username = or_none s.frigate_http_username;
  password = secret s.frigate_http_password;
  proxy_secret = secret s.frigate_http_proxy_secret;
  trusted_internal = s.frigate_http_trusted_internal;
  ca_bundle = or_none s.frigate_http_ca_bundle;
  timeout_milliseconds = 10000;
  max_retries = 3;
  max_json_bytes = 2097152;
  max_media_bytes = 26214400;
}

abbrev pub configured : Result FrigateHttpConfig → Reply FrigateHttpConfig
configured (ok c) = served c
configured (err e) = http_exception 503 "Frigate media configuration is invalid"

-- `_config`
unfoldable pub config : (String → SplitUrl) → Settings → Reply FrigateHttpConfig
config urlsplit s =
    if s.frigate_http_base_url == ""
    then http_exception 503 "Frigate media access is not configured"
    else configured (config_of urlsplit (settings_config s))

-- A link to an event, and the first one.
abbrev link_to : Option Json → Option String → Option String
link_to (some (Json.text namespace)) (some id) =
    if namespace == "frigate.event" then some id else none
link_to _ _ = none

abbrev linked : Json → Option String
linked (obj fields) = link_to (get "namespace" fields) (as_text (get "source_entity_id" fields))
linked other = none

abbrev or_later : Option String → Option String → Option String
or_later none later = later
or_later (some id) later = some id

unfoldable pub first_link : Items → Option String
first_link nil = none
first_link (item j items) = or_later (linked j) (first_link items)

abbrev pub links_of : Option Json → Option String
links_of (some (arr items)) = first_link items
links_of other = none

-- `_event_id`, of an observation and of a request.
unfoldable pub linked_event : String → String → Fields → Option String
linked_event namespace entity extensions =
    if namespace == "frigate.event"
    then some entity
    else if namespace == "frigate.review"
    then links_of (get "links" extensions)
    else none

abbrev pub event_id_of_observation : Observation → Option String
event_id_of_observation o = linked_event o.source_namespace o.source_entity_id o.extensions

abbrev pub event_id_of_request : EvidenceContentRequest → Option String
event_id_of_request q = linked_event q.source_namespace q.source_entity_id q.extensions

-- `text.split(";", 1)[0]`
unfoldable pub before_semicolon : String → String
before_semicolon String.[] = ""
before_semicolon (String.◌∷◌ c s) =
    let rest = before_semicolon s in if String.◌∷◌ c String.[] == ";" then "" else String.◌∷◌ c rest

pub record MediaReply : Type 0 where
  pub content : Bytes
  pub media_type : String
  pub headers : Headers

module _ (urlsplit : String → SplitUrl) (strip lower : String → String) (settings : Settings)
    (fetch : FrigateHttpConfig → String → Outcome MediaResponse) where
  abbrev pub type_of : MediaResponse → String
  type_of media = lower (strip (before_semicolon media.content_type))

  abbrev pub safety_headers : Headers
  safety_headers =
      ("Cache-Control", "private, no-store")
      ∷ ("X-Content-Type-Options", "nosniff")
      ∷ ("Content-Security-Policy", "default-src 'none'; sandbox")
      ∷ []

  abbrev pub respond : Outcome MediaResponse → Reply MediaReply
  respond (failed (api (not_found_error m))) = http_exception 404 "snapshot was not found"
  respond (failed (api (transient_error m))) =
      http_exception 503 "Frigate media is temporarily unavailable"
  respond (failed (api e)) = http_exception 502 "Frigate media request failed"
  respond (failed e) = raised e
  respond (value media) =
      if contains allowed_image_types (type_of media)
      then served
          (record { content = media.content; media_type = type_of media; headers = safety_headers })
      else http_exception 502 "Frigate returned an unsupported media type"

  abbrev pub with_config : String → Reply FrigateHttpConfig → Reply MediaReply
  with_config event_id (served c) = respond (fetch c event_id)
  with_config event_id (http_exception code detail) = http_exception code detail
  with_config event_id (unavailable code retryable) = unavailable code retryable
  with_config event_id (raised e) = raised e

  abbrev pub of_event : Option String → Reply MediaReply
  of_event none = http_exception 404 "snapshot is not associated"
  of_event (some event_id) = with_config event_id (config urlsplit settings)

  abbrev pub of_source : Observation → Option SourceInstance → Reply MediaReply
  of_source o none = http_exception 404 "event not found"
  of_source o (some s) =
      if s.source_type == "frigate"
      then of_event (event_id_of_observation o)
      else http_exception 404 "snapshot is not supported"

  abbrev pub of_observation : Database → Option Observation → Reply MediaReply
  of_observation db none = http_exception 404 "event not found"
  of_observation db (some o) =
      of_source o
        (find? (λ (s : SourceInstance). eqb s.id o.source_instance_id) db.source_instances)

  -- The route `/{observation_id}/media/snapshot`.
  unfoldable pub snapshot : Uuid → Database → Reply MediaReply
  snapshot observation_id db =
      of_observation db (find? (λ (o : Observation). eqb o.id observation_id) db.observations)

  abbrev pub evidence_of : Outcome MediaResponse → Reply (Bytes × String)
  evidence_of (failed (api (not_found_error m))) = unavailable "not_found" false
  evidence_of (failed (api (transient_error m))) = unavailable "temporarily_unavailable" true
  evidence_of (failed (api e)) = unavailable "upstream_failed" false
  evidence_of (failed e) = raised e
  evidence_of (value media) =
      if not (contains allowed_image_types (type_of media)) || ltb 10485760 (length media.content)
      then unavailable "media_limits" false
      else served (media.content, type_of media)

  abbrev pub read_with : String → Reply FrigateHttpConfig → Reply (Bytes × String)
  read_with event_id (served c) = evidence_of (fetch c event_id)
  read_with event_id (http_exception code detail) = http_exception code detail
  read_with event_id (unavailable code retryable) = unavailable code retryable
  read_with event_id (raised e) = raised e

  abbrev pub read_event : Option String → Reply (Bytes × String)
  read_event none = unavailable "source_unavailable" false
  read_event (some event_id) = read_with event_id (config urlsplit settings)

  -- `FrigateEvidenceContentReader.read`
  unfoldable pub read : EvidenceContentRequest → Reply (Bytes × String)
  read q =
      if q.source_type == "frigate"
      then read_event (event_id_of_request q)
      else unavailable "unsupported_source" false
