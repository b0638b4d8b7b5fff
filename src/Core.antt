-- ===== src/Core.antt =====
-- Values that all components share: identifiers, times, JSON values, exceptions and the functions
-- of the Python platform that the program calls.
mod Values
pub mod Payload
pub mod Contracts
pub mod SourceAdapter
use nanexus_event_intelligen.Prelude.{ℕ, String, Bool, Option}
pub use Values.{Uuid, Time}
use Payload.{Json}

-- The exceptions that the modelled code raises or lets through.
pub data Error : Type 0 where
  value_error lookup_error type_error : String → Error
  integrity_error : Error
  http_exception : ℕ → String → Error
  -- `DeliveryError(message, retryable=...)` of notifications/models.py
  delivery_error : String → Bool → Error
  -- `DuplicateObservationError` of persistence/repositories.py and `FrigateProtocolError` of
  -- adapters/frigate/normalizer.py
  duplicate_observation_error frigate_protocol_error : String → Error

pub data Result {ℓ} (A : Type ℓ) : Type ℓ where
  ok : A → Result A
  err : Error → Result A

-- Functions of Python's standard library: `UUID(text)`, `str(uuid)`, `str` of a decoded JSON value or None, `json.dumps` with sorted keys,
-- `hashlib.sha256(text.encode()).hexdigest()`, `datetime.isoformat`.
pub record Platform : Type 0 where
  pub parse_uuid : String → Option Uuid
  pub show_uuid : Uuid → String
  pub str : Option Json → String
  pub dumps : Json → String
  pub sha256 : String → String
  pub isoformat : Time → String

-- The values that one call draws from `new_id()` and from the clock, in the order of the draws.
pub record Draws : Type 0 where
  pub id : ℕ → Uuid
  pub now : ℕ → Time
