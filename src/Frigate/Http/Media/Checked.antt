-- ===== src/Frigate/Http/Media/Checked.antt =====
-- adapters/frigate/media_api.py and evidence_reader.py: what is served is a small image.
use mathlib.Core.Path.{subst}
use nanexus_event_intelligen.Prelude.{
  ℕ, ◌≤◌, String, ◌≡◌, refl, sym, ◌∙◌, arith, Bool, true, false, Option, none, some, [], length,
  contains, find?, eqb, ◌==◌, string_eq, if◌then◌else◌,
}
use nanexus_event_intelligen.Core.{Uuid, Result, ok, err, value_error}
use nanexus_event_intelligen.Persistence.Models.{Observation, SourceInstance}
use nanexus_event_intelligen.Persistence.Database.{Database}
use nanexus_event_intelligen.Frigate.Http.Config.{
  SplitUrl, FrigateHttpConfig, config_of, validate_security_boundary, limits_valid,
}
use nanexus_event_intelligen.Frigate.Http.Client.{
  Bytes, Headers, Sent, Outcome, value, failed, api, invalid, httpx, FrigateApiError,
}
use nanexus_event_intelligen.Frigate.Http.Client.Limit.{request-within}
use nanexus_event_intelligen.Frigate.Http.Api.{
  MediaResponse, HttpPlatform, identifier, at_path, requested, snapshot_from, get_event_snapshot,
}
use nanexus_event_intelligen.Frigate.Http.Media.{
  allowed_image_types, Settings, Reply, served, http_exception, unavailable, raised,
  settings_config, configured, config, event_id_of_observation, MediaReply, type_of, safety_headers,
  respond, with_config, of_event, of_source, of_observation, snapshot,
}

module _ (http : HttpPlatform) (server : ℕ → Sent) (reply : Sent) where
  -- A new client fetches a snapshot.
  abbrev pub fetched : FrigateHttpConfig → String → Outcome MediaResponse
  fetched c event_id = get_event_snapshot http c server reply false event_id

  fetched-within :
      (c : FrigateHttpConfig) (event_id : String) (media : MediaResponse)
      → fetched c event_id ≡ value media
      → length media.content ≤ c.max_media_bytes
  unfolding get_event_snapshot
  fetched-within c event_id media h = of_path (identifier http event_id "event_id") h
    where
      of_answer :
          (path : String) (o : Outcome (Bytes × Headers))
          → requested http c server reply false path c.max_media_bytes [] ≡ o
          → snapshot_from http c server reply false o ≡ value media
          → length media.content ≤ c.max_media_bytes
      of_answer path (failed e) k h = absurd (ground arith)
      of_answer path (value (content, headers)) k h =
          let small =
            request-within http.timer c server path c.max_media_bytes [] reply false content headers
              k in
          ground (arith, small)

      of_path :
          (o : Outcome String)
          → at_path http c server reply false "/api/events/" "/snapshot.jpg"
              (λ path.
                snapshot_from http c server reply false
                  (requested http c server reply false path c.max_media_bytes []))
              o
            ≡ value media
          → length media.content ≤ c.max_media_bytes
      of_path (failed e) h = absurd (ground arith)
      of_path (value quoted) h = of_answer _ _ refl h

validate-same :
    (urlsplit : String → SplitUrl) (c d : FrigateHttpConfig)
    → validate_security_boundary urlsplit c ≡ ok d
    → d ≡ c
unfolding validate_security_boundary
validate-same urlsplit c d h = ground arith

config-same :
    (urlsplit : String → SplitUrl) (s : Settings) (c : FrigateHttpConfig)
    → config urlsplit s ≡ served c
    → c ≡ settings_config s
unfolding config config_of
config-same urlsplit s c h = by_url (s.frigate_http_base_url == "") h
  where
    of_config :
        (r : Result FrigateHttpConfig)
        → validate_security_boundary urlsplit (settings_config s) ≡ r
        → configured r ≡ served c
        → c ≡ settings_config s
    of_config (err e) k h = absurd (ground arith)
    of_config (ok d) k h =
        let same : d ≡ c = cc in sym same ∙ validate-same urlsplit (settings_config s) d k

    by_limits :
        (b : Bool)
        → configured (
            if b
            then validate_security_boundary urlsplit (settings_config s)
            else err (value_error "validation error"))
          ≡ served c
        → c ≡ settings_config s
    by_limits true h = of_config (validate_security_boundary urlsplit (settings_config s)) refl h
    by_limits false h = absurd (ground arith)

    by_url :
        (b : Bool)
        → (if b
            then http_exception 503 "Frigate media access is not configured"
            else configured (config_of urlsplit (settings_config s)))
          ≡ served c
        → c ≡ settings_config s
    by_url true h = absurd (ground arith)
    by_url false h = by_limits (limits_valid (settings_config s)) h

module _ (http : HttpPlatform) (server : ℕ → Sent) (reply : Sent) (urlsplit : String → SplitUrl)
    (strip lower : String → String) (settings : Settings) where
  abbrev fetch : FrigateHttpConfig → String → Outcome MediaResponse
  fetch = fetched http server reply

  -- An image of a type in the list, of at most `limit` bytes.
  abbrev pub IsImage : ℕ → Bytes → String → Type 0
  IsImage limit content kind = (contains allowed_image_types kind ≡ true) × (length content ≤ limit)

  respond-IsImage :
      (c : FrigateHttpConfig) (event_id : String) (o : Outcome MediaResponse) (m : MediaReply)
      → fetch c event_id ≡ o
      → respond urlsplit strip lower settings fetch o ≡ served m
      → IsImage c.max_media_bytes m.content m.media_type
  respond-IsImage c event_id (failed (api (FrigateApiError.not_found_error t))) m k h =
      absurd (ground arith)
  respond-IsImage c event_id (failed (api (FrigateApiError.transient_error t))) m k h =
      absurd (ground arith)
  respond-IsImage c event_id (failed (api (FrigateApiError.authentication_error t))) m k h =
      absurd (ground arith)
  respond-IsImage c event_id (failed (api (FrigateApiError.protocol_error t))) m k h =
      absurd (ground arith)
  respond-IsImage c event_id (failed (api (FrigateApiError.response_too_large_error t))) m k h =
      absurd (ground arith)
  respond-IsImage c event_id (failed (invalid t)) m k h = absurd (ground arith)
  respond-IsImage c event_id (failed (httpx e)) m k h = absurd (ground arith)
  respond-IsImage c event_id (value media) m k h =
      by_type (contains allowed_image_types (type_of urlsplit strip lower settings fetch media))
        refl h
    where
      small : length media.content ≤ c.max_media_bytes
      small = fetched-within http server reply c event_id media k

      by_type :
          (b : Bool)
          → contains allowed_image_types (type_of urlsplit strip lower settings fetch media) ≡ b
          → (if b
              then served (record {
                content = media.content;
                media_type = type_of urlsplit strip lower settings fetch media;
                headers = safety_headers urlsplit strip lower settings fetch;
              })
              else http_exception 502 "Frigate returned an unsupported media type")
            ≡ served m
          → IsImage c.max_media_bytes m.content m.media_type
      by_type true t h =
          let same : record {
            content = media.content;
            media_type = type_of urlsplit strip lower settings fetch media;
            headers = safety_headers urlsplit strip lower settings fetch;
          }
              ≡ m =
            cc in
          subst (λ (x : MediaReply). IsImage c.max_media_bytes x.content x.media_type) same
            (t, small)
      by_type false t h = absurd (ground arith)

  snapshot-at :
      (event_id : String) (r : Reply FrigateHttpConfig) (m : MediaReply)
      → config urlsplit settings ≡ r
      → with_config urlsplit strip lower settings fetch event_id r ≡ served m
      → IsImage 26214400 m.content m.media_type
  snapshot-at event_id (served c) m k h =
      subst (λ (x : FrigateHttpConfig). IsImage x.max_media_bytes m.content m.media_type)
        (config-same urlsplit settings c k) (respond-IsImage c event_id (fetch c event_id) m refl h)
  snapshot-at event_id (http_exception code detail) m k h = absurd (ground arith)
  snapshot-at event_id (unavailable code b) m k h = absurd (ground arith)
  snapshot-at event_id (raised e) m k h = absurd (ground arith)

  -- What the snapshot route serves, with the client of http_client.py and whatever Frigate answers, is
  -- an image: its type is in the list of allowed types and it has at most 25 MiB.
  pub snapshot-IsImage :
      (observation_id : Uuid) (db : Database) (m : MediaReply)
      → snapshot urlsplit strip lower settings fetch observation_id db ≡ served m
      → (contains allowed_image_types m.media_type ≡ true) × (length m.content ≤ 26214400)
  unfolding snapshot
  snapshot-IsImage observation_id db m h =
      of_row (find? (λ (o : Observation). eqb o.id observation_id) db.observations) h
    where
      of_id :
          (id : Option String)
          → of_event urlsplit strip lower settings fetch id ≡ served m
          → IsImage 26214400 m.content m.media_type
      of_id none h = absurd (ground arith)
      of_id (some event_id) h = snapshot-at event_id (config urlsplit settings) m refl h

      of_kind :
          (b : Bool) (o : Observation)
          → (if b
              then of_event urlsplit strip lower settings fetch (event_id_of_observation o)
              else http_exception 404 "snapshot is not supported")
            ≡ served m
          → IsImage 26214400 m.content m.media_type
      of_kind true o h = of_id (event_id_of_observation o) h
      of_kind false o h = absurd (ground arith)

      of_joined :
          (o : Observation) (s : Option SourceInstance)
          → of_source urlsplit strip lower settings fetch o s ≡ served m
          → IsImage 26214400 m.content m.media_type
      of_joined o none h = absurd (ground arith)
      of_joined o (some s) h = of_kind (s.source_type == "frigate") o h

      of_row :
          (o : Option Observation)
          → of_observation urlsplit strip lower settings fetch db o ≡ served m
          → IsImage 26214400 m.content m.media_type
      of_row none h = absurd (ground arith)
      of_row (some o) h =
          of_joined o
            (find? (λ (s : SourceInstance). eqb s.id o.source_instance_id) db.source_instances) h
