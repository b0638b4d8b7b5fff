-- ===== src/Frigate/Http/Client.antt =====
-- adapters/frigate/http_client.py: one request of the client, with its retries. What the server gives
-- for the n-th GET of a call and for a login is a parameter; a call's GETs, pauses and closed
-- responses are its trace.
pub mod Retries
pub mod Failing
pub mod Recovery
pub mod Limit
pub mod Exhausted
use nanexus_event_intelligen.Prelude.{
  ℕ, zero, suc, ◌+◌, ◌*◌, ◌^◌, ◌≤◌, min, String, Bool, true, false, not, ◌&&◌, ◌||◌, Option, none,
  some, List, [], ◌∷◌, ◌++◌, is_some, any, length, lookup, eqb, leb, ltb, ◌==◌, string_eq,
  if◌then◌else◌,
}
use nanexus_event_intelligen.Prelude.Texts.{append, text_length, truncate}
use nanexus_event_intelligen.Frigate.Http.Config.{FrigateHttpConfig, origin}

abbrev pub Bytes : Type 0
Bytes = List ℕ

abbrev pub Headers : Type 0
Headers = List (String × String)

-- `RETRYABLE_STATUS`
abbrev pub retryable_status : List ℕ
retryable_status = 408 ∷ 429 ∷ 500 ∷ 502 ∷ 503 ∷ 504 ∷ []

-- The subclasses of `FrigateApiError`.
pub data FrigateApiError : Type 0 where
  authentication_error not_found_error transient_error : String → FrigateApiError
  protocol_error response_too_large_error : String → FrigateApiError

-- `httpx.TimeoutException`, `httpx.NetworkError`, and its other errors.
pub data HttpxError : Type 0 where
  timeout network other : HttpxError

-- The exceptions that leave a call.
pub data Failure : Type 0 where
  api : FrigateApiError → Failure
  invalid : String → Failure
  httpx : HttpxError → Failure

pub data Outcome (A : Type 0) : Type 0 where
  value : A → Outcome A
  failed : Failure → Outcome A

-- A response: its status, its headers under lower-case keys, the chunks of its body, and the error
-- that breaks the body off after them.
pub record Response : Type 0 where
  pub status : ℕ
  pub headers : Headers
  pub chunks : List Bytes
  pub broken : Option HttpxError

pub data Sent : Type 0 where
  response : Response → Sent
  unsent : HttpxError → Sent

pub record Request : Type 0 where
  pub url : String
  pub params : Headers
  pub headers : Headers

-- A float of seconds: in milliseconds, infinite, below 0, or not a number.
pub data Delay : Type 0 where
  milliseconds : ℕ → Delay
  infinite negative nan : Delay

-- `float` of a text, unless it raises ValueError, and the injected sleeper (`asyncio.sleep`): what it
-- raises for a delay, if it raises.
pub record Timer : Type 0 where
  pub float : String → Option Delay
  pub sleeper : Delay → Option Failure

pub data Step : Type 0 where
  get : Request → Step
  sleep : Delay → Step
  close : Step
  -- the POST of a login
  post : Step

-- `text.startswith(prefix)` and `sub in text`.
abbrev pub starts_with : String → String → Bool
starts_with start s = truncate (text_length start) s == start

unfoldable pub has_infix : String → String → Bool
has_infix sub String.[] = sub == ""
has_infix sub (String.◌∷◌ c s) = starts_with sub (String.◌∷◌ c s) || has_infix sub s

-- The tests on the status, in their order.
abbrev pub refused_status : ℕ → Option FrigateApiError
refused_status status =
    if eqb status 401 || eqb status 403
    then some (authentication_error "Frigate authentication failed")
    else if eqb status 404
    then some (not_found_error "Frigate resource was not found")
    else if leb 300 status && ltb status 400
    then some (protocol_error "Frigate redirect was refused")
    else if any (eqb status) retryable_status
    then some (transient_error "Frigate API is temporarily unavailable")
    else if leb 400 status
    then some (protocol_error "Frigate API returned an unexpected status")
    else none

-- The chunks, as long as they are within the limit.
unfoldable pub read_body : ℕ → Bytes → List Bytes → Option HttpxError → Outcome Bytes
read_body limit content [] none = value content
read_body limit content [] (some e) = failed (httpx e)
read_body limit content (chunk ∷ chunks) broken =
    let rest = read_body limit (content ++ chunk) chunks broken in
    if ltb limit (length (content ++ chunk))
    then failed (api (response_too_large_error "Frigate response exceeded configured limit"))
    else rest

abbrev with_headers : Headers → Outcome Bytes → Outcome (Bytes × Headers)
with_headers headers (value content) = value (content, headers)
with_headers headers (failed e) = failed e

abbrev by_status : ℕ → Response → Option FrigateApiError → Outcome (Bytes × Headers)
by_status limit r (some e) = failed (api e)
by_status limit r none = with_headers r.headers (read_body limit [] r.chunks r.broken)

-- The body of the `try` once the request is sent.
unfoldable pub outcome_of : ℕ → Sent → Outcome (Bytes × Headers)
outcome_of limit (unsent e) = failed (httpx e)
outcome_of limit (response r) = by_status limit r (refused_status r.status)

-- `except (httpx.TimeoutException, httpx.NetworkError, FrigateTransientError)`
abbrev pub is_retried : Failure → Bool
is_retried (api (transient_error m)) = true
is_retried (httpx timeout) = true
is_retried (httpx network) = true
is_retried _ = false

-- `finally`
abbrev closing : Sent → List Step
closing (response r) = close ∷ []
closing (unsent e) = []

-- `min(delay, 30.0)`, which keeps what is not a number.
abbrev pub capped : Delay → Delay
capped (milliseconds n) = milliseconds (min n 30000)
capped infinite = milliseconds 30000
capped negative = negative
capped nan = nan

-- Milliseconds: min(0.25 * 2 ** attempt, 5).
abbrev pub backoff : ℕ → ℕ
backoff attempt = min (250 * 2 ^ attempt) 5000

module _ (timer : Timer) where
  -- `min(float(...), 30.0)` of the header `retry-after`, where it is there and not empty.
  abbrev pub wanted : Delay → Option String → Delay
  wanted standard none = standard
  wanted standard (some s) =
      if s == ""
      then standard
      else elim (timer.float s) [ none ↦ standard | some delay ↦ capped delay ]

  abbrev pub delay_after : ℕ → Sent → Delay
  delay_after attempt (unsent e) = milliseconds (backoff attempt)
  delay_after attempt (response r) =
      wanted (milliseconds (backoff attempt)) (lookup "retry-after" r.headers)

  module _ (config : FrigateHttpConfig) (server : ℕ → Sent) where
    abbrev bearer : Option String → Headers
    bearer none = []
    bearer (some token) = ("Authorization", append "Bearer " token) ∷ []

    abbrev proxy : Option String → Headers
    proxy none = []
    proxy (some secret) = ("X-Proxy-Secret", secret) ∷ []

    -- `_headers`
    abbrev pub headers_of : Headers
    headers_of =
        ("Accept", "application/json") ∷ bearer config.bearer_token ++ proxy config.proxy_secret

    module _ (path : String) (limit : ℕ) (params : Headers) where
      abbrev pub request_of : Request
      request_of = record {
        url = append (origin config) path;
        params = params;
        headers = headers_of;
      }

      -- `raise FrigateTransientError("... after retries")`, behind the loop.
      abbrev pub exhausted : Outcome (Bytes × Headers)
      exhausted = failed (api (transient_error "Frigate API request failed after retries"))

      -- The pause: an exception of the sleeper leaves the call, otherwise the later rounds follow.
      abbrev pub paused :
          ℕ
          → Option Failure
          → Outcome (Bytes × Headers) × List Step
          → Outcome (Bytes × Headers) × List Step
      paused attempt (some e) later = (
        failed e,
        get request_of ∷ sleep (delay_after attempt (server attempt)) ∷ closing (server attempt),
      )
      paused attempt none later = (
        later.0,
        get request_of ∷ sleep (delay_after attempt (server attempt)) ∷ closing (server attempt)
            ++ later.1,
      )

      -- Out of the loop after the last round, or a pause and the later rounds.
      abbrev pub again :
          ℕ → ℕ → Outcome (Bytes × Headers) × List Step → Outcome (Bytes × Headers) × List Step
      again attempt zero later = (exhausted, get request_of ∷ closing (server attempt))
      again attempt (suc left) later =
          paused attempt (timer.sleeper (delay_after attempt (server attempt))) later

      -- The end of a round.
      abbrev pub settle :
          ℕ
          → ℕ
          → Outcome (Bytes × Headers)
          → Outcome (Bytes × Headers) × List Step
          → Outcome (Bytes × Headers) × List Step
      settle attempt left (value answer) later =
          (value answer, get request_of ∷ closing (server attempt))
      settle attempt left (failed e) later =
          if is_retried e
          then again attempt left later
          else (failed e, get request_of ∷ closing (server attempt))

      -- `for attempt in range(max_retries + 1)`, by the rounds that are left.
      unfoldable pub rounds : ℕ → ℕ → Outcome (Bytes × Headers) × List Step
      rounds zero attempt = (exhausted, [])
      rounds (suc left) attempt =
          settle attempt left (outcome_of limit (server attempt)) (rounds left (attempt + 1))

      abbrev pub is_api_path : Bool
      is_api_path = starts_with "/api/" path && not (has_infix "://" path)

      -- `_ensure_login`: the failure, if there is one, whether a POST was made, and the session.
      abbrev pub login_of : Sent → Option Failure × Bool
      login_of (unsent e) = (some (api (transient_error "Frigate login request failed")), false)
      login_of (response r) =
          if eqb r.status 200 || eqb r.status 201
          then (none, true)
          else (some (api (authentication_error "Frigate login failed")), false)

      abbrev pub ensure_login : Sent → Bool → Option Failure × Bool × List Step
      ensure_login reply logged_in =
          if logged_in || not (is_some config.username)
          then (none, logged_in, [])
          else ((login_of reply).0, (login_of reply).1, post ∷ [])

      abbrev pub after_login :
          Option Failure × Bool × List Step
          → Outcome (Bytes × Headers) × List Step
          → Outcome (Bytes × Headers) × Bool × List Step
      after_login (some e, logged_in, steps) answer = (failed e, logged_in, steps)
      after_login (none, logged_in, steps) answer = (answer.0, logged_in, steps ++ answer.1)

      -- `_request`: the outcome, whether the client is logged in, and the steps.
      unfoldable pub request : Sent → Bool → Outcome (Bytes × Headers) × Bool × List Step
      request reply logged_in =
          let answer = rounds (suc config.max_retries) 0 in
          let login = ensure_login reply logged_in in
          if is_api_path
          then after_login login answer
          else (failed (invalid "only fixed Frigate API paths are allowed"), logged_in, [])
