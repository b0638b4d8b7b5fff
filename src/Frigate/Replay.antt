-- ===== src/Frigate/Replay.antt =====
-- adapters/frigate/replay.py: bundles of recorded messages. The two files of a bundle, the JSON
-- reader, and the reader of a line are parameters.
use nanexus_event_intelligen.Prelude.{
  ℕ, zero, suc, String, Bool, false, not, Option, none, some, List, [], ◌∷◌, ◌++◌, ◌-◌, ◌==◌,
  string_eq, length, if◌then◌else◌,
}
use nanexus_event_intelligen.Prelude.Texts.{append}
use nanexus_event_intelligen.Core.{Time, Result, ok, err, value_error, Platform}
use nanexus_event_intelligen.Core.Payload.{Json, Fields, bool, get}
use nanexus_event_intelligen.Frigate.Normalizer.{hash}

pub record FixtureMessage : Type 0 where
  pub topic : String
  pub observed_at : Time
  pub qos : ℕ
  pub retain : Bool
  pub payload_sha256 : String
  pub payload : Fields

-- The text of `metadata.json` and the lines of `messages.jsonl`, where the files are there.
pub record BundleFiles : Type 0 where
  pub metadata : Option String
  pub messages : Option (List String)

-- `json.loads` of an object, which raises ValueError, `FixtureMessage.model_validate_json`, and `str`.
pub record BundleReader : Type 0 where
  pub loads : String → Result Fields
  pub fixture_message : String → Option FixtureMessage
  pub show : ℕ → String

module _ (platform : Platform) (reader : BundleReader) where
  -- One line, by its number.
  abbrev checked_line : ℕ → Option FixtureMessage → Result FixtureMessage
  checked_line n none = err (value_error (append "invalid fixture line " (reader.show n)))
  checked_line n (some message) =
      if hash platform message.payload == message.payload_sha256
      then ok message
      else err (value_error (append "payload hash mismatch at line " (reader.show n)))

  abbrev before_lines :
      Result FixtureMessage → Result (List FixtureMessage) → Result (List FixtureMessage)
  before_lines (err e) rest = err e
  before_lines (ok message) (err e) = err e
  before_lines (ok message) (ok messages) = ok (message ∷ messages)

  unfoldable pub load_lines : ℕ → List String → Result (List FixtureMessage)
  load_lines n [] = ok []
  load_lines n (line ∷ lines) =
      before_lines (checked_line n (reader.fixture_message line)) (load_lines (suc n) lines)

  abbrev is_false : Option Json → Bool
  is_false (some (bool b)) = not b
  is_false other = false

  abbrev load_marked : Result Fields → List String → Result (List FixtureMessage)
  load_marked (err e) lines = err e
  load_marked (ok metadata) lines =
      if is_false (get "contains_secrets" metadata)
      then load_lines 1 lines
      else err (value_error "fixture bundle is not marked secret-free")

  abbrev load_files : Option String → Option (List String) → Result (List FixtureMessage)
  load_files (some metadata) (some lines) = load_marked (reader.loads metadata) lines
  load_files _ _ = err (value_error "fixture bundle is incomplete")

  unfoldable pub load_fixture_bundle : BundleFiles → Result (List FixtureMessage)
  load_fixture_bundle files = load_files files.metadata files.messages

-- A replay's steps in their order.
pub data ReplayStep : Type 0 where
  sleep : ℕ → ReplayStep
  emit : FixtureMessage → ReplayStep

-- The pause before a message: the microseconds since the message before, over the speed, and none
-- where the speed is 0 or where no message went before.
abbrev pause : (ℕ → ℕ → ℕ) → ℕ → Option Time → Time → List ReplayStep
pause over zero previous at = []
pause over (suc speed) none at = []
pause over (suc speed) (some previous) at = sleep (over (at - previous) (suc speed)) ∷ []

unfoldable pub replay_from : (ℕ → ℕ → ℕ) → ℕ → Option Time → List FixtureMessage → List ReplayStep
replay_from over speed previous [] = []
replay_from over speed previous (m ∷ ms) =
    pause over speed previous m.observed_at
    ++ emit m ∷ replay_from over speed (some m.observed_at) ms

-- The steps and the number of messages; a speed is not negative.
unfoldable pub replay_fixture_bundle : (ℕ → ℕ → ℕ) → ℕ → List FixtureMessage → List ReplayStep × ℕ
replay_fixture_bundle over speed messages = (replay_from over speed none messages, length messages)
