-- ===== src/Frigate/Http/Client/Limit.antt =====
-- adapters/frigate/http_client.py: what a request may return.
use nanexus_event_intelligen.Prelude.{
  ℕ, zero, suc, ◌+◌, ◌≤◌, String, ◌≡◌, refl, ◌∙◌, arith, Bool, true, false, Option, none, some,
  List, [], ◌∷◌, ◌++◌, ltb, length, string_eq, if◌then◌else◌,
}
use nanexus_event_intelligen.Frigate.Http.Config.{FrigateHttpConfig}
use nanexus_event_intelligen.Frigate.Http.Client.{
  Timer, paused, delay_after, ensure_login, Bytes, Headers, Response, Sent, response, unsent,
  HttpxError, Failure, api, invalid, Outcome, value, failed, Step, get, FrigateApiError,
  response_too_large_error, is_retried, outcome_of, read_body, by_status, with_headers,
  refused_status, closing, request_of, again, settle, rounds, is_api_path, after_login, request,
}

module _ (limit : ℕ) where
  within :
      (chunks : List Bytes) (content : Bytes) (broken : Option HttpxError) (answer : Bytes)
      → length content ≤ limit
      → read_body limit content chunks broken ≡ value answer
      → length answer ≤ limit
  unfolding read_body
  within [] content none answer h e = ground arith
  within [] content (some x) answer h e = absurd (ground arith)
  within (chunk ∷ chunks) content broken answer h e =
      by_test (ltb limit (length (content ++ chunk))) refl e
        (within chunks (content ++ chunk) broken answer)
    where
      by_test :
          (b : Bool)
          → ltb limit (length (content ++ chunk)) ≡ b
          → (if b
              then failed
                  (api (response_too_large_error "Frigate response exceeded configured limit"))
              else read_body limit (content ++ chunk) chunks broken)
            ≡ value answer
          → (length (content ++ chunk) ≤ limit
              → read_body limit (content ++ chunk) chunks broken ≡ value answer
              → length answer ≤ limit)
          → length answer ≤ limit
      by_test true t k rest = absurd (ground arith)
      by_test false t k rest = rest (ground arith) k

  by_status-within :
      (r : Response) (refused : Option FrigateApiError) (answer : Bytes × Headers)
      → by_status limit r refused ≡ value answer
      → length answer.0 ≤ limit
  by_status-within r (some e) answer h = absurd (ground arith)
  by_status-within r none answer h = of_body (read_body limit [] r.chunks r.broken) refl h
    where
      of_body :
          (o : Outcome Bytes)
          → read_body limit [] r.chunks r.broken ≡ o
          → with_headers r.headers o ≡ value answer
          → length answer.0 ≤ limit
      of_body (failed e) k h = absurd (ground arith)
      of_body (value content) k h =
          let small : length content ≤ limit =
            within r.chunks [] r.broken content (omega arith) k in
          ground (arith, small)

  outcome_of-within :
      (reply : Sent) (answer : Bytes × Headers)
      → outcome_of limit reply ≡ value answer
      → length answer.0 ≤ limit
  unfolding outcome_of
  outcome_of-within (unsent e) answer h = absurd (ground arith)
  outcome_of-within (response r) answer h = by_status-within r (refused_status r.status) answer h

module _ (timer : Timer) (config : FrigateHttpConfig) (server : ℕ → Sent) (path : String)
    (limit : ℕ) (params : Headers) where
  abbrev IsSmall : Outcome (Bytes × Headers) → Type 0
  IsSmall o = (v : Bytes × Headers) → o ≡ value v → length v.0 ≤ limit

  failed-IsSmall : (e : Failure) → IsSmall (failed e)
  failed-IsSmall e v h = absurd (ground arith)

  again-IsSmall :
      (attempt left : ℕ) (later : Outcome (Bytes × Headers) × List Step)
      → IsSmall later.0
      → IsSmall (again timer config server path limit params attempt left later).0
  again-IsSmall attempt zero later h = failed-IsSmall _
  again-IsSmall attempt (suc l) later h =
      by_sleeper (timer.sleeper (delay_after timer attempt (server attempt)))
    where
      by_sleeper :
          (raised : Option Failure)
          → IsSmall (paused timer config server path limit params attempt raised later).0
      by_sleeper none = h
      by_sleeper (some e) = failed-IsSmall e

  settle-IsSmall :
      (attempt left : ℕ) (o : Outcome (Bytes × Headers))
      (later : Outcome (Bytes × Headers) × List Step)
      → outcome_of limit (server attempt) ≡ o
      → IsSmall later.0
      → IsSmall (settle timer config server path limit params attempt left o later).0
  settle-IsSmall attempt left (value answer) later e h =
      λ v k. outcome_of-within limit (server attempt) v (e ∙ k)
  settle-IsSmall attempt left (failed f) later e h = by_kind (is_retried f)
    where
      by_kind :
          (retried : Bool)
          → IsSmall
              (if retried then again timer config server path limit params attempt left later else (
                failed f,
                get (request_of timer config server path limit params) ∷ closing (server attempt),
              )).0
      by_kind false = failed-IsSmall f
      by_kind true = again-IsSmall attempt left later h

  rounds-IsSmall :
      (n attempt : ℕ) → IsSmall (rounds timer config server path limit params n attempt).0
  unfolding rounds
  rounds-IsSmall zero attempt = failed-IsSmall _
  rounds-IsSmall (suc left) attempt =
      settle-IsSmall attempt left _ _ refl (rounds-IsSmall left (attempt + 1))

  -- A body that a request returns, whatever the server sends, is within the limit.
  pub request-within :
      (reply : Sent) (logged_in : Bool) (content : Bytes) (headers : Headers)
      → (request timer config server path limit params reply logged_in).0 ≡ value (content, headers)
      → length content ≤ limit
  unfolding request
  request-within reply logged_in content headers h =
      by_path (is_api_path timer config server path limit params)
        (ensure_login timer config server path limit params reply logged_in)
        (rounds timer config server path limit params (suc config.max_retries) 0)
        (rounds-IsSmall (suc config.max_retries) 0) (content, headers) h
    where
      by_path :
          (allowed : Bool) (login : Option Failure × Bool × List Step)
          (answer : Outcome (Bytes × Headers) × List Step)
          → IsSmall answer.0
          → IsSmall
              (if allowed
                then after_login timer config server path limit params login answer
                else (failed (invalid "only fixed Frigate API paths are allowed"), logged_in, [])).0
      by_path false login answer h = failed-IsSmall _
      by_path true (none, b, steps) answer h = h
      by_path true (some e, b, steps) answer h = failed-IsSmall e
