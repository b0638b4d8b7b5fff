-- ===== src/Frigate/Http/Client/Recovery.antt =====
-- adapters/frigate/http_client.py: a request to a server that fails for a time and then answers.
use mathlib.Core.Path.{subst}
use mathlib.Core.List.{append_assoc, append-nil}
use nanexus_event_intelligen.Prelude.{
  ℕ, zero, suc, ◌+◌, ◌≤◌, String, ◌≡◌, sym, ap, ◌∙◌, arith, true, false, none, List, [], ◌∷◌, ◌++◌,
  ltb, length, length-append, if◌then◌else◌,
}
use nanexus_event_intelligen.Frigate.Http.Config.{FrigateHttpConfig}
use nanexus_event_intelligen.Frigate.Http.Client.{
  Bytes, Headers, Response, Sent, response, api, invalid, value, failed, response_too_large_error,
  outcome_of, read_body, by_status, with_headers, refused_status, Timer, settle, rounds,
  is_api_path, after_login, request,
}
use nanexus_event_intelligen.Frigate.Http.Client.Retries.{run}
use nanexus_event_intelligen.Frigate.Http.Client.Failing.{
  Sleeps, FailsForATime, rounds-goes_on, joined,
}

read_body-joined :
    (limit : ℕ) (chunks : List Bytes) (content : Bytes)
    → length (content ++ joined chunks) ≤ limit
    → read_body limit content chunks none ≡ value (content ++ joined chunks)
unfolding read_body
read_body-joined limit [] content le = ap value (sym (append-nil content))
read_body-joined limit (chunk ∷ chunks) content le =
    let same = append_assoc content chunk (joined chunks) in
    let le' : length ((content ++ chunk) ++ joined chunks) ≤ limit = rw same le in
    let small : ltb limit (length (content ++ chunk)) ≡ false =
      ground (arith, le', length-append (content ++ chunk) (joined chunks)) in
    ap
      (λ b.
        if b
        then failed (api (response_too_large_error "Frigate response exceeded configured limit"))
        else read_body limit (content ++ chunk) chunks none)
      small
    ∙ read_body-joined limit chunks (content ++ chunk) le'
    ∙ ap value same

-- The server answers: with the status 200 and a whole body within the limit.
abbrev pub Answers : ℕ → Response → Type 0
Answers limit r = (r.status ≡ 200) × (r.broken ≡ none) × (length (joined r.chunks) ≤ limit)

outcome_of-Answers :
    (limit : ℕ) (r : Response)
    → Answers limit r
    → outcome_of limit (response r) ≡ value (joined r.chunks, r.headers)
unfolding outcome_of
outcome_of-Answers limit r (ok_status, whole, small) =
    ap (λ status. by_status limit r (refused_status status)) ok_status
    ∙ ap (λ broken. with_headers r.headers (read_body limit [] r.chunks broken)) whole
    ∙ ap (with_headers r.headers) (read_body-joined limit r.chunks [] small)

module _ (timer : Timer) (config : FrigateHttpConfig) (server : ℕ → Sent) (path : String)
    (limit : ℕ) (params : Headers) (sleeps : Sleeps timer) where
  recovers :
      (n left attempt : ℕ) (r : Response)
      → n ≤ left
      → ((k : ℕ) → suc k ≤ n → FailsForATime timer (server (attempt + k)))
      → server (attempt + n) ≡ response r
      → Answers limit r
      → (run timer config server path limit params (suc left) attempt).0
        ≡ value (joined r.chunks, r.headers)
  unfolding rounds
  recovers zero left attempt r le h e a =
      let here : attempt ≡ attempt + 0 = omega arith in
      ap
        (λ o.
          (settle timer config server path limit params attempt left o
            (run timer config server path limit params left (attempt + 1))).0)
        (ap (λ k. outcome_of limit (server k)) here
          ∙ ap (outcome_of limit) e
          ∙ outcome_of-Answers limit r a)
  recovers (suc n) zero attempt r le h e a = absurd (omega (arith, le))
  recovers (suc n) (suc left) attempt r le h e a =
      let first = h zero (omega arith) in
      let next : attempt + 1 + n ≡ attempt + suc n = omega arith in
      ap (λ answer. answer.0)
        (rounds-goes_on timer config server path limit params sleeps left attempt
          (at_index (omega arith) first))
      ∙ recovers n left (attempt + 1) r (omega (arith, le))
          (λ k l. at_index (later k) (h (suc k) (omega (arith, l)))) (ap server next ∙ e) a
    where
      at_index : {i j : ℕ} → i ≡ j → FailsForATime timer (server i) → FailsForATime timer (server j)
      at_index same = subst (λ i. FailsForATime timer (server i)) same

      later : (k : ℕ) → attempt + suc k ≡ attempt + 1 + k
      later k = omega arith

  -- Where the path is one of the API, the client is logged in, and the sleeper sleeps for every finite
  -- delay: when each of the first `n` replies, at most max_retries, is a timeout, a network error or
  -- one of the statuses 408, 429, 500, 502, 503 and 504 whose retry-after header, if any, is not the
  -- text of NaN, and the next reply has the status 200 and a whole body within the limit, the request
  -- returns that body and its headers.
  pub request_recovers :
      (reply : Sent) (n : ℕ) (r : Response)
      → is_api_path timer config server path limit params ≡ true
      → n ≤ config.max_retries
      → ((k : ℕ) → suc k ≤ n → FailsForATime timer (server k))
      → server n ≡ response r
      → Answers limit r
      → (request timer config server path limit params reply true).0
        ≡ value (joined r.chunks, r.headers)
  unfolding request
  request_recovers reply n r allowed le h e a =
      ap
        (λ b.
          (if b
            then after_login timer config server path limit params (none, true, [])
                (run timer config server path limit params (suc config.max_retries) 0)
            else (failed (invalid "only fixed Frigate API paths are allowed"), true, [])).0)
        allowed
      ∙ recovers n config.max_retries 0 r le
          (λ k l. subst (λ i. FailsForATime timer (server i)) (from_zero k) (h k l))
          (ap server (sym (from_zero n)) ∙ e) a
    where
      from_zero : (k : ℕ) → k ≡ 0 + k
      from_zero k = omega arith
