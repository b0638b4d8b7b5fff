-- ===== src/Frigate/Http/Client/Retries.antt =====
-- adapters/frigate/http_client.py: how a request ends, and how often it tries.
use mathlib.Core.Path.{subst}
use nanexus_event_intelligen.Prelude.{
  ℕ, zero, suc, ◌+◌, ◌≤◌, String, ◌≡◌, refl, arith, Bool, true, false, not, Option, none, some,
  is_some, ◌||◌, List, [], ◌∷◌, ◌++◌, lookup, ◌==◌, All, All-append, string_eq, if◌then◌else◌,
}
use nanexus_event_intelligen.Frigate.Http.Config.{FrigateHttpConfig}
use nanexus_event_intelligen.Frigate.Http.Client.{
  Timer, Delay, milliseconds, infinite, negative, nan, capped, paused, Bytes, Headers, Sent,
  response, unsent, Failure, invalid, Outcome, value, failed, Step, get, sleep, close, post,
  is_retried, closing, backoff, wanted, delay_after, request_of, again, settle, rounds, is_api_path,
  login_of, after_login, request,
}

-- The GETs of a trace, and its pauses.
abbrev pub gets_in : List Step → ℕ
gets_in [] = 0
gets_in (get r ∷ steps) = suc (gets_in steps)
gets_in (sleep d ∷ steps) = gets_in steps
gets_in (close ∷ steps) = gets_in steps
gets_in (post ∷ steps) = gets_in steps

abbrev pub pauses_in : List Step → ℕ
pauses_in [] = 0
pauses_in (get r ∷ steps) = pauses_in steps
pauses_in (sleep d ∷ steps) = suc (pauses_in steps)
pauses_in (close ∷ steps) = pauses_in steps
pauses_in (post ∷ steps) = pauses_in steps

-- At most 30 s, below 0, or not a number.
abbrev pub IsShort : Delay → Type 0
IsShort (milliseconds n) = n ≤ 30000
IsShort infinite = ⊥
IsShort negative = Unit
IsShort nan = Unit

abbrev pub HasShortPause : Step → Type 0
HasShortPause (get r) = Unit
HasShortPause (sleep d) = IsShort d
HasShortPause close = Unit
HasShortPause post = Unit

capped-IsShort : (d : Delay) → IsShort (capped d)
capped-IsShort (milliseconds n) = omega arith
capped-IsShort infinite = omega arith
capped-IsShort negative = tt
capped-IsShort nan = tt

pub closing_adds :
    (reply : Sent) (steps : List Step)
    → (gets_in (closing reply ++ steps) ≡ gets_in steps)
      × (pauses_in (closing reply ++ steps) ≡ pauses_in steps)
closing_adds (response r) steps = (refl, refl)
closing_adds (unsent e) steps = (refl, refl)

pub closing_alone : (reply : Sent) → (gets_in (closing reply) ≡ 0) × (pauses_in (closing reply) ≡ 0)
closing_alone (response r) = (refl, refl)
closing_alone (unsent e) = (refl, refl)

closing_short : (reply : Sent) → All HasShortPause (closing reply)
closing_short (response r) = (tt, tt)
closing_short (unsent e) = tt

module _ (timer : Timer) (config : FrigateHttpConfig) (server : ℕ → Sent) (path : String)
    (limit : ℕ) (params : Headers) where
  abbrev pub run : ℕ → ℕ → Outcome (Bytes × Headers) × List Step
  run n attempt = rounds timer config server path limit params n attempt

  delay-IsShort : (attempt : ℕ) (reply : Sent) → IsShort (delay_after timer attempt reply)
  delay-IsShort attempt (unsent e) = omega arith
  delay-IsShort attempt (response r) = by_header (lookup "retry-after" r.headers)
    where
      standard : IsShort (milliseconds (backoff attempt))
      standard = omega arith

      by_header : (h : Option String) → IsShort (wanted timer (milliseconds (backoff attempt)) h)
      by_header none = standard
      by_header (some s) = by_number (s == "") (timer.float s)
        where
          by_number :
              (b : Bool) (f : Option Delay)
              → IsShort (
                  if b
                  then milliseconds (backoff attempt)
                  else elim f [ none ↦ milliseconds (backoff attempt) | some d ↦ capped d ])
          by_number true f = standard
          by_number false none = standard
          by_number false (some d) = capped-IsShort d

  -- At most `left` pauses more, all of them short, and at most one more GET than that.
  abbrev Bounded : ℕ → List Step → Type 0
  Bounded left steps =
      (gets_in steps ≤ suc left) × (pauses_in steps ≤ left) × All HasShortPause steps

  last-Bounded :
      (left attempt : ℕ)
      → Bounded left
          (get (request_of timer config server path limit params) ∷ closing (server attempt))
  last-Bounded left attempt =
      let (g, p) = closing_alone (server attempt) in
      (omega (arith, g), omega (arith, p), (tt, closing_short (server attempt)))

  paused-Bounded :
      (attempt left : ℕ) (raised : Option Failure) (later : Outcome (Bytes × Headers) × List Step)
      → Bounded left later.1
      → Bounded (suc left) (paused timer config server path limit params attempt raised later).1
  paused-Bounded attempt left (some e) later h =
      let (g, p) = closing_alone (server attempt) in
      (
        omega (arith, g),
        omega (arith, p),
        (tt, (delay-IsShort attempt (server attempt), closing_short (server attempt))),
      )
  paused-Bounded attempt left none later (g1, p1, short) =
      let (g, p) = closing_adds (server attempt) later.1 in
      (
        omega (arith, g, g1),
        omega (arith, p, p1),
        (
          tt,
          (
            delay-IsShort attempt (server attempt),
            All-append HasShortPause (closing (server attempt)) later.1
                (closing_short (server attempt)) short,
          ),
        ),
      )

  again-Bounded :
      (attempt left : ℕ) (later : Outcome (Bytes × Headers) × List Step)
      → ((l : ℕ) → left ≡ suc l → Bounded l later.1)
      → Bounded left (again timer config server path limit params attempt left later).1
  again-Bounded attempt zero later h = last-Bounded zero attempt
  again-Bounded attempt (suc l) later h =
      paused-Bounded attempt l (timer.sleeper (delay_after timer attempt (server attempt))) later
        (h l refl)

  settle-Bounded :
      (attempt left : ℕ) (o : Outcome (Bytes × Headers))
      (later : Outcome (Bytes × Headers) × List Step)
      → ((l : ℕ) → left ≡ suc l → Bounded l later.1)
      → Bounded left (settle timer config server path limit params attempt left o later).1
  settle-Bounded attempt left (value answer) later h = last-Bounded left attempt
  settle-Bounded attempt left (failed e) later h = by_kind (is_retried e)
    where
      by_kind :
          (retried : Bool)
          → Bounded left
              (if retried then again timer config server path limit params attempt left later else (
                failed e,
                get (request_of timer config server path limit params) ∷ closing (server attempt),
              )).1
      by_kind false = last-Bounded left attempt
      by_kind true = again-Bounded attempt left later h

  rounds-Bounded : (left attempt : ℕ) → Bounded left (run (suc left) attempt).1
  unfolding rounds
  rounds-Bounded zero attempt = settle-Bounded attempt zero _ _ (λ l e. absurd (omega (arith, e)))
  rounds-Bounded (suc left) attempt =
      settle-Bounded attempt (suc left) _ (run (suc left) (attempt + 1)) λ l e.
        subst (λ k. Bounded k (run (suc left) (attempt + 1)).1) (omega (arith, e))
          (rounds-Bounded left (attempt + 1))

  -- The request, of any server and with any state of the login, ends. It sends at most max_retries + 1
  -- GETs and pauses at most max_retries times, each time for at most 30 seconds, where the delay is a
  -- number (one below 0 and one that is not a number are left to the sleeper).
  pub request_bounds :
      (reply : Sent) (logged_in : Bool)
      → let steps = (request timer config server path limit params reply logged_in).2 in
        (gets_in steps ≤ config.max_retries + 1)
        × (pauses_in steps ≤ config.max_retries)
        × All HasShortPause steps
  unfolding request
  request_bounds reply logged_in =
      by_path (is_api_path timer config server path limit params)
        (logged_in || not (is_some config.username))
        (login_of timer config server path limit params reply) (rounds-Bounded config.max_retries 0)
    where
      Small : List Step → Type 0
      Small steps =
          (gets_in steps ≤ config.max_retries + 1)
          × (pauses_in steps ≤ config.max_retries)
          × All HasShortPause steps

      by_failure :
          (o : Option Failure) (b : Bool) (answer : Outcome (Bytes × Headers) × List Step)
          → Bounded config.max_retries answer.1
          → Small (after_login timer config server path limit params (o, b, post ∷ []) answer).2
      by_failure none b answer (g, p, short) = (omega (arith, g), p, (tt, short))
      by_failure (some e) b answer h = (omega arith, omega arith, (tt, tt))

      by_path :
          (allowed known : Bool) (login : Option Failure × Bool)
          → Bounded config.max_retries (run (suc config.max_retries) 0).1
          → Small
              (if allowed
                then after_login timer config server path limit params
                    (if known then (none, logged_in, []) else (login.0, login.1, post ∷ []))
                    (run (suc config.max_retries) 0)
                else (failed (invalid "only fixed Frigate API paths are allowed"), logged_in, [])).2
      by_path false known login h = (omega arith, omega arith, tt)
      by_path true true login (g, p, short) = (omega (arith, g), p, short)
      by_path true false login h = by_failure login.0 login.1 _ h
