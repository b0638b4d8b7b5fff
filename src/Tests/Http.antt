-- ===== src/Tests/Http.antt =====
-- Runs of adapters/frigate/http_client.py, media_api.py and evidence_reader.py.
use nanexus_event_intelligen.Prelude.{
  ℕ, zero, suc, ◌+◌, ◌≤◌, String, ◌≡◌, refl, arith, inl, inr, true, false, Option, none, some, [],
  ◌∷◌, All, string_eq, contains, length,
}
use nanexus_event_intelligen.Prelude.Texts.{truncate}
use nanexus_event_intelligen.Core.Payload.{end}
use nanexus_event_intelligen.Persistence.Models.{SourceInstance, HealthStatus}
use nanexus_event_intelligen.Persistence.Database.{Database, empty_database}
use nanexus_event_intelligen.Frigate.Http.Config.{
  SplitUrl, FrigateHttpConfig, config_of, validate_security_boundary,
}
use nanexus_event_intelligen.Frigate.Http.Client.{
  Response, Failure, invalid, Timer, Delay, milliseconds, infinite, negative, nan, Sent, response,
  unsent, HttpxError, value, failed, api, transient_error, has_infix, read_body, outcome_of, rounds,
  request,
}
use nanexus_event_intelligen.Frigate.Http.Client.Retries.{
  gets_in, pauses_in, HasShortPause, request_bounds,
}
use nanexus_event_intelligen.Frigate.Http.Client.Limit.{request-within}
use nanexus_event_intelligen.Frigate.Http.Client.Failing.{FailsForATime}
use nanexus_event_intelligen.Frigate.Http.Client.Recovery.{request_recovers}
use nanexus_event_intelligen.Frigate.Http.Client.Exhausted.{request-IsExhausted}
use nanexus_event_intelligen.Frigate.Http.Api.{HttpPlatform, identifier, get_event_snapshot}
use nanexus_event_intelligen.Frigate.Http.Media.{
  allowed_image_types, Settings, settings_config, config, linked_event, before_semicolon, snapshot,
  read,
}
use nanexus_event_intelligen.Frigate.Http.Media.Checked.{fetched, snapshot-IsImage}
use nanexus_event_intelligen.Frigate.Http.Media.Evidence.{read-IsSmallImage}
use nanexus_event_intelligen.Tests.Sample.{observation}

abbrev urlsplit : String → SplitUrl
urlsplit url = record {
  scheme = "https";
  hostname = "frigate";
  username = "";
  password = "";
  path = "";
  query = "";
  fragment = "";
  port = none;
}

abbrev settings : Settings
settings = record {
  frigate_http_base_url = "https://frigate/";
  frigate_http_bearer_token = some "t";
  frigate_http_username = "";
  frigate_http_password = none;
  frigate_http_proxy_secret = none;
  frigate_http_trusted_internal = false;
  frigate_http_ca_bundle = "";
}

abbrev configuration : FrigateHttpConfig
configuration = settings_config settings

abbrev image : Sent
image = response (record {
  status = 200;
  headers = ("content-type", "image/jpeg; q=1") ∷ [];
  chunks = (255 ∷ 216 ∷ []) ∷ (255 ∷ []) ∷ [];
  broken = none;
})

abbrev busy : Sent
busy =
    response
      (record { status = 503; headers = ("retry-after", "60") ∷ []; chunks = []; broken = none })

-- A server that is busy, then unreachable, and then sends an image.
abbrev server : ℕ → Sent
server zero = busy
server (suc zero) = unsent HttpxError.timeout
server n = image

abbrev sleeps_for : Delay → Option Failure
sleeps_for (milliseconds n) = none
sleeps_for infinite = none
sleeps_for negative = none
sleeps_for nan = some (invalid "Invalid delay: NaN (not a number)")

abbrev timer : Timer
timer = record { float = λ s. some (milliseconds 60000); sleeper = sleeps_for }

abbrev snapshot_path : String
snapshot_path = "/api/events/e1/snapshot.jpg"

request_bounds_example :
    let steps = (request timer configuration server snapshot_path 100 [] image false).2 in
    (gets_in steps ≤ 3 + 1) × (pauses_in steps ≤ 3) × All HasShortPause steps
request_bounds_example = request_bounds timer configuration server snapshot_path 100 [] image false

abbrev image_response : Response
image_response = record {
  status = 200;
  headers = ("content-type", "image/jpeg; q=1") ∷ [];
  chunks = (255 ∷ 216 ∷ []) ∷ (255 ∷ []) ∷ [];
  broken = none;
}

busy_first : (k : ℕ) → suc k ≤ 2 → FailsForATime timer (server k)
busy_first zero h = (inr (inr (inr (inr (inl refl)))), λ e. ground arith)
busy_first (suc zero) h = tt
busy_first (suc (suc k)) h = absurd (omega (arith, h))

request_recovers_example :
    (request timer configuration server snapshot_path 100 [] image true).0
    ≡ value (255 ∷ 216 ∷ 255 ∷ [], ("content-type", "image/jpeg; q=1") ∷ [])
unfolding truncate has_infix
request_recovers_example =
    request_recovers timer configuration server snapshot_path 100 [] ((λ n. refl), refl) image 2
      image_response refl (omega arith) busy_first refl (refl, refl, omega arith)

request-within_example : length {A = ℕ} (255 ∷ 216 ∷ 255 ∷ []) ≤ 100
unfolding truncate has_infix outcome_of read_body rounds request
request-within_example =
    request-within timer configuration server snapshot_path 100 [] image false
      (255 ∷ 216 ∷ 255 ∷ []) (("content-type", "image/jpeg; q=1") ∷ []) refl

request-IsExhausted_example :
    ((request timer configuration (λ _. busy) snapshot_path 100 [] image true).0
      ≡ failed (api (transient_error "Frigate API request failed after retries")))
    × (gets_in (request timer configuration (λ _. busy) snapshot_path 100 [] image true).2 ≡ 3 + 1)
unfolding truncate has_infix
request-IsExhausted_example =
    request-IsExhausted timer configuration (λ _. busy) snapshot_path 100 [] ((λ n. refl), refl)
      image refl (λ k l. (inr (inr (inr (inr (inl refl)))), λ e. ground arith))

abbrev source : SourceInstance
source = record {
  id = 2;
  created_at = 1;
  source_type = "frigate";
  name = "f";
  source_version = none;
  adapter_version = "0.3.0";
  capabilities = end;
  config_ref = none;
  trust_boundary = "local";
  health_status = HealthStatus.healthy;
  updated_at = 1;
}

abbrev with_event : Database
with_event = record empty_database {
  source_instances = source ∷ [];
  observations = record observation { source_namespace = "frigate.event" } ∷ [];
}

abbrev http : HttpPlatform
http = record {
  decode = λ _. none;
  strip = λ s. s;
  loads = λ _. none;
  loads_bytes = λ _. none;
  quote = λ s. s;
  show = λ _. "1";
  show_float = λ _. "1";
  frigate_event = λ _. none;
  frigate_review = λ _. none;
  timer = timer;
}

abbrev same_text : String → String
same_text s = s

snapshot-IsImage_example : (contains allowed_image_types "image/jpeg" ≡ true) × (3 ≤ 26214400)
unfolding snapshot config config_of validate_security_boundary linked_event before_semicolon
    get_event_snapshot identifier truncate has_infix outcome_of read_body rounds request
snapshot-IsImage_example =
    snapshot-IsImage http server image urlsplit same_text same_text settings 3 with_event
      (record {
        content = 255 ∷ 216 ∷ 255 ∷ [];
        media_type = "image/jpeg";
        headers =
            ("Cache-Control", "private, no-store")
            ∷ ("X-Content-Type-Options", "nosniff")
            ∷ ("Content-Security-Policy", "default-src 'none'; sandbox")
            ∷ [];
      })
      refl

read-IsSmallImage_example : (contains allowed_image_types "image/jpeg" ≡ true) × (3 ≤ 10485760)
unfolding read config config_of validate_security_boundary linked_event before_semicolon
    get_event_snapshot identifier truncate has_infix outcome_of read_body rounds request
read-IsSmallImage_example =
    read-IsSmallImage urlsplit same_text same_text settings (fetched http server image)
      (record {
        evidence_id = 5;
        source_type = "frigate";
        source_namespace = "frigate.event";
        source_entity_id = "e1";
        extensions = end;
      })
      (255 ∷ 216 ∷ 255 ∷ []) "image/jpeg" refl
