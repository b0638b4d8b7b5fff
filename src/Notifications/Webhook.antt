-- ===== src/Notifications/Webhook.antt =====
-- notifications/webhook.py: the webhook adapter. The parsed URL is what `urlsplit` gives, and the
-- HTTP client is a parameter: what a POST to the URL with these headers and this content gives.
use nanexus_event_intelligen.Prelude.{
  ℕ, String, Bool, true, false, not, ◌&&◌, ◌||◌, Option, none, some, List, [], ◌∷◌, any, eqb, leb,
  ltb, ◌==◌, string_eq, if◌then◌else◌,
}
use nanexus_event_intelligen.Prelude.Texts.{truncate}
use nanexus_event_intelligen.Core.{Result, ok, err, delivery_error}
use nanexus_event_intelligen.Notifications.Models.{
  NotificationMessage, DeliveryResult, NotificationAdapter,
}

-- `RETRYABLE_STATUS`
abbrev pub retryable_status : List ℕ
retryable_status = 408 ∷ 429 ∷ 500 ∷ 502 ∷ 503 ∷ 504 ∷ []

-- The parts of a URL that the validator reads: each is empty where the URL has none.
pub record SplitUrl : Type 0 where
  pub scheme : String
  pub hostname : String
  pub username : String
  pub password : String
  pub query : String
  pub fragment : String

-- The timeout is in milliseconds.
pub record WebhookNotificationConfig : Type 0 where
  pub url : String
  pub trusted_internal : Bool
  pub secret : Option String
  pub timeout_milliseconds : ℕ

-- `validate_security_boundary`, and the bounds of the timeout.
unfoldable pub webhook_config_valid : (String → SplitUrl) → WebhookNotificationConfig → Bool
webhook_config_valid urlsplit config =
    let parsed = urlsplit config.url in
    (parsed.scheme == "http" || parsed.scheme == "https")
    && not (parsed.hostname == "")
    && parsed.username == ""
    && parsed.password == ""
    && parsed.query == ""
    && parsed.fragment == ""
    && not (parsed.scheme == "http" && not config.trusted_internal)
    && ltb 0 config.timeout_milliseconds
    && leb config.timeout_milliseconds 30000

-- A timeout or a network error, or a response: its status and its `x-request-id` header.
pub data PostReply : Type 0 where
  unreachable : PostReply
  response : ℕ → Option String → PostReply

abbrev Headers : Type 0
Headers = List (String × String)

abbrev secret_header : Option String → Headers
secret_header none = []
secret_header (some secret) = ("X-Nanexus-Webhook-Secret", secret) ∷ []

abbrev pub headers_of : WebhookNotificationConfig → NotificationMessage → Headers
headers_of config message =
    ("Accept", "application/json")
    ∷ ("Content-Type", "application/json")
    ∷ ("Idempotency-Key", message.idempotency_key)
    ∷ secret_header config.secret

-- `external_id[:512] if external_id else None`
abbrev pub external_id_of : Option String → Option String
external_id_of none = none
external_id_of (some id) = if id == "" then none else some (truncate 512 id)

unfoldable pub result_of : PostReply → Result DeliveryResult
result_of unreachable = err (delivery_error "webhook request failed" true)
result_of (response status request_id) =
    if leb 200 status && ltb status 300
    then ok (record { external_message_id = external_id_of request_id })
    else if any (eqb status) retryable_status
    then err (delivery_error "webhook is temporarily unavailable" true)
    else if leb 300 status && ltb status 400
    then err (delivery_error "webhook redirect was refused" false)
    else err (delivery_error "webhook rejected the notification" false)

module _ {N : Type 0} (post : String → NotificationMessage → Headers → N → PostReply × N) where
  unfoldable pub deliver : WebhookNotificationConfig → NotificationAdapter N
  deliver config message n =
      let (reply, n') = post config.url message (headers_of config message) n in
      (result_of reply, n')
