-- ===== src/Frigate/Http/Client/Failing.antt =====
-- adapters/frigate/http_client.py: replies of a server that fails for a time, and its recovery.
use nanexus_event_intelligen.Prelude.{
  ℕ, zero, suc, ◌+◌, String, ◌≡◌, ◌≢◌, refl, ap, ◌∙◌, ◌⊎◌, inl, inr, Bool, true, false, Option,
  none, some, List, [], ◌∷◌, ◌++◌, lookup, ◌==◌, string_eq, if◌then◌else◌,
}
use nanexus_event_intelligen.Frigate.Http.Config.{FrigateHttpConfig}
use nanexus_event_intelligen.Frigate.Http.Client.{
  Bytes, Headers, Sent, response, unsent, timeout, network, other, Failure, api, httpx,
  transient_error, failed, get, is_retried, outcome_of, by_status, refused_status, closing, backoff,
  wanted, delay_after, request_of, Timer, Delay, milliseconds, infinite, negative, nan, capped,
  paused, again, settle, rounds,
}
use nanexus_event_intelligen.Frigate.Http.Client.Retries.{run}

-- The sleeper sleeps for every finite delay and for one below 0.
abbrev pub Sleeps : Timer → Type 0
Sleeps timer = ((n : ℕ) → timer.sleeper (milliseconds n) ≡ none) × (timer.sleeper negative ≡ none)

-- The statuses of a server that is overloaded, unavailable or at fault.
abbrev pub IsBusyStatus : ℕ → Type 0
IsBusyStatus status =
    (status ≡ 408)
    ⊎ (status ≡ 429)
    ⊎ (status ≡ 500)
    ⊎ (status ≡ 502)
    ⊎ (status ≡ 503)
    ⊎ (status ≡ 504)

module _ (timer : Timer) where
  -- The header `retry-after` is no text that `float` reads as what is not a number.
  abbrev pub HasNumber : Option String → Type 0
  HasNumber none = Unit
  HasNumber (some s) = timer.float s ≢ some nan

  -- A timeout, an unreachable server, or a reply with one of those statuses.
  abbrev pub FailsForATime : Sent → Type 0
  FailsForATime (unsent timeout) = Unit
  FailsForATime (unsent network) = Unit
  FailsForATime (unsent other) = ⊥
  FailsForATime (response r) = IsBusyStatus r.status × HasNumber (lookup "retry-after" r.headers)

  sleeper-capped : (d : Delay) → Sleeps timer → d ≢ nan → timer.sleeper (capped d) ≡ none
  sleeper-capped (milliseconds n) h k = h.0 _
  sleeper-capped infinite h k = h.0 _
  sleeper-capped negative h k = h.1
  sleeper-capped nan h k = absurd (k refl)

  sleeper-wanted :
      (n : ℕ) (header : Option String)
      → Sleeps timer
      → HasNumber header
      → timer.sleeper (wanted timer (milliseconds n) header) ≡ none
  sleeper-wanted n none h k = h.0 n
  sleeper-wanted n (some s) h k = by_number (s == "") (timer.float s) k
    where
      by_number :
          (b : Bool) (f : Option Delay)
          → f ≢ some nan
          → timer.sleeper
              (if b then milliseconds n else elim f [ none ↦ milliseconds n | some d ↦ capped d ])
            ≡ none
      by_number true f k = h.0 n
      by_number false none k = h.0 n
      by_number false (some d) k = sleeper-capped d h (λ e. k (ap some e))

  sleeper-delay_after :
      (attempt : ℕ) (reply : Sent)
      → Sleeps timer
      → FailsForATime reply
      → timer.sleeper (delay_after timer attempt reply) ≡ none
  sleeper-delay_after attempt (unsent e) h k = h.0 (backoff attempt)
  sleeper-delay_after attempt (response r) h (busy, number) =
      sleeper-wanted (backoff attempt) (lookup "retry-after" r.headers) h number

  -- The exception of a reply is one that is tried again.
  abbrev IsRetried : ℕ → Sent → Type 0
  IsRetried limit reply =
      (e : Failure) × (outcome_of limit reply ≡ failed e) × (is_retried e ≡ true)

  busy_lem :
      (status : ℕ)
      → IsBusyStatus status
      → refused_status status ≡ some (transient_error "Frigate API is temporarily unavailable")
  busy_lem status (inl e) = rw e refl
  busy_lem status (inr (inl e)) = rw e refl
  busy_lem status (inr (inr (inl e))) = rw e refl
  busy_lem status (inr (inr (inr (inl e)))) = rw e refl
  busy_lem status (inr (inr (inr (inr (inl e))))) = rw e refl
  busy_lem status (inr (inr (inr (inr (inr e))))) = rw e refl

  FailsForATime-IsRetried : (limit : ℕ) (reply : Sent) → FailsForATime reply → IsRetried limit reply
  unfolding outcome_of
  FailsForATime-IsRetried limit (unsent timeout) h = (httpx timeout, refl, refl)
  FailsForATime-IsRetried limit (unsent network) h = (httpx network, refl, refl)
  FailsForATime-IsRetried limit (unsent other) h = absurd h
  FailsForATime-IsRetried limit (response r) (busy, number) =
      (_, ap (by_status limit r) (busy_lem r.status busy), refl)

module _ (timer : Timer) (config : FrigateHttpConfig) (server : ℕ → Sent) (path : String)
    (limit : ℕ) (params : Headers) (sleeps : Sleeps timer) where
  -- A round whose reply fails for a time, and that is not the last, goes on to the later rounds.
  pub rounds-goes_on :
      (left attempt : ℕ)
      → FailsForATime timer (server attempt)
      → run timer config server path limit params (suc (suc left)) attempt
        ≡ paused timer config server path limit params attempt none
            (run timer config server path limit params (suc left) (attempt + 1))
  unfolding rounds
  rounds-goes_on left attempt h =
      let (f, e, r) = FailsForATime-IsRetried timer limit (server attempt) h in
      let later = run timer config server path limit params (suc left) (attempt + 1) in
      ap (λ o. settle timer config server path limit params attempt (suc left) o later) e
      ∙ ap
          (λ b.
            (if b then again timer config server path limit params attempt (suc left) later else (
              failed f,
              get (request_of timer config server path limit params) ∷ closing (server attempt),
            )))
          r
      ∙ ap (λ raised. paused timer config server path limit params attempt raised later)
          (sleeper-delay_after timer attempt (server attempt) sleeps h)

  -- The last round, if its reply fails for a time, gives up.
  pub rounds-gives_up :
      (attempt : ℕ)
      → FailsForATime timer (server attempt)
      → run timer config server path limit params 1 attempt ≡ (
        failed (api (transient_error "Frigate API request failed after retries")),
        get (request_of timer config server path limit params) ∷ closing (server attempt),
      )
  unfolding rounds
  rounds-gives_up attempt h =
      let (f, e, r) = FailsForATime-IsRetried timer limit (server attempt) h in
      let later = run timer config server path limit params zero (attempt + 1) in
      ap (λ o. settle timer config server path limit params attempt zero o later) e
      ∙ ap
          (λ b.
            (if b then again timer config server path limit params attempt zero later else (
              failed f,
              get (request_of timer config server path limit params) ∷ closing (server attempt),
            )))
          r

-- The chunks of a body one after the other.
abbrev pub joined : List Bytes → Bytes
joined [] = []
joined (chunk ∷ chunks) = chunk ++ joined chunks
