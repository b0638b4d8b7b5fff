-- ===== src/Frigate/Http/Client/Exhausted.antt =====
-- adapters/frigate/http_client.py: a request whose every round fails for a time.
use mathlib.Core.Path.{subst}
use nanexus_event_intelligen.Prelude.{ℕ, zero, suc, ◌+◌, ◌≤◌, String, ◌≡◌, refl, arith, true, List}
use nanexus_event_intelligen.Frigate.Http.Config.{FrigateHttpConfig}
use nanexus_event_intelligen.Frigate.Http.Client.{
  Bytes, Headers, Sent, api, transient_error, Outcome, failed, Step, Timer, is_api_path, request,
}
use nanexus_event_intelligen.Frigate.Http.Client.Retries.{gets_in, run, closing_adds, closing_alone}
use nanexus_event_intelligen.Frigate.Http.Client.Failing.{
  Sleeps, FailsForATime, rounds-goes_on, rounds-gives_up,
}

abbrev IsExhausted : ℕ → Outcome (Bytes × Headers) × List Step → Type 0
IsExhausted n answer =
    (answer.0 ≡ failed (api (transient_error "Frigate API request failed after retries")))
    × (gets_in answer.1 ≡ n)

module _ (timer : Timer) (config : FrigateHttpConfig) (server : ℕ → Sent) (path : String)
    (limit : ℕ) (params : Headers) (sleeps : Sleeps timer) where
  rounds-IsExhausted :
      (left attempt : ℕ)
      → ((k : ℕ) → k ≤ left → FailsForATime timer (server (attempt + k)))
      → IsExhausted (suc left) (run timer config server path limit params (suc left) attempt)
  rounds-IsExhausted zero attempt h =
      let (g, p) = closing_alone (server attempt) in
      rw
        (rounds-gives_up timer config server path limit params sleeps attempt
          (at_index (omega arith) (h zero (omega arith))))
        (refl, omega (arith, g))
    where
      at_index : {i j : ℕ} → i ≡ j → FailsForATime timer (server i) → FailsForATime timer (server j)
      at_index same = subst (λ i. FailsForATime timer (server i)) same
  rounds-IsExhausted (suc left) attempt h =
      let rest = run timer config server path limit params (suc left) (attempt + 1) in
      let (same, counted) =
        rounds-IsExhausted left (attempt + 1)
          (λ k l. at_index (later k) (h (suc k) (omega (arith, l)))) in
      let (g, p) = closing_adds (server attempt) rest.1 in
      rw
        (rounds-goes_on timer config server path limit params sleeps left attempt
          (at_index (omega arith) (h zero (omega arith))))
        (same, omega (arith, g, counted))
    where
      at_index : {i j : ℕ} → i ≡ j → FailsForATime timer (server i) → FailsForATime timer (server j)
      at_index same = subst (λ i. FailsForATime timer (server i)) same

      later : (k : ℕ) → attempt + suc k ≡ attempt + 1 + k
      later k = omega arith

  -- Where the path is one of the API, the client is logged in, and the sleeper sleeps for every finite
  -- delay: when each of the first max_retries + 1 replies is a timeout, a network error or one of the
  -- statuses 408, 429, 500, 502, 503 and 504 whose retry-after header, if any, is not the text of NaN,
  -- the request sends exactly max_retries + 1 GETs and fails with the transient error "after retries".
  pub request-IsExhausted :
      (reply : Sent)
      → is_api_path timer config server path limit params ≡ true
      → ((k : ℕ) → k ≤ config.max_retries → FailsForATime timer (server k))
      → ((request timer config server path limit params reply true).0
          ≡ failed (api (transient_error "Frigate API request failed after retries")))
        × (gets_in (request timer config server path limit params reply true).2
            ≡ config.max_retries + 1)
  unfolding request
  request-IsExhausted reply allowed h =
      let (same, counted) =
        rounds-IsExhausted config.max_retries 0
          (λ k l. subst (λ i. FailsForATime timer (server i)) (from_zero k) (h k l)) in
      rw allowed (same, omega (arith, counted))
    where
      from_zero : (k : ℕ) → k ≡ 0 + k
      from_zero k = omega arith
