-- ===== src/Tests/Bundles.antt =====
-- Runs of adapters/frigate/pipeline.py over bundles.
use package.text.Mathlib.TextLemmas.{length-append}
use nanexus_event_intelligen.Prelude.{
  ℕ, zero, suc, ◌+◌, ◌*◌, String, ◌≡◌, refl, ap, arith, false, Option, none, some, List, [], ◌∷◌,
  min, length, ◌++◌,
}
use nanexus_event_intelligen.Prelude.Texts.{join, text_length}
use nanexus_event_intelligen.Core.{Result, ok, err, Draws}
use nanexus_event_intelligen.Core.Payload.{field, end, bool, text}
use nanexus_event_intelligen.Persistence.Database.{
  Database, empty_database, insert_checkpoint, insert_raw_message,
}
use nanexus_event_intelligen.Persistence.Repositories.RawMessages
use nanexus_event_intelligen.Persistence.Repositories.Checkpoints
use nanexus_event_intelligen.Frigate.Redaction.{redact}
use nanexus_event_intelligen.Frigate.Payloads.{FrigatePlatform}
use nanexus_event_intelligen.Frigate.Replay.{
  FixtureMessage, BundleFiles, BundleReader, load_fixture_bundle, load_lines,
}
use nanexus_event_intelligen.Frigate.Normalizer.Branches.{ends_with}
use nanexus_event_intelligen.Frigate.Ingest.{IngestResult, FrigateIngestPipeline, finish, ingest}
use nanexus_event_intelligen.Frigate.Ingest.Rows.{raw_key}
use nanexus_event_intelligen.Frigate.Ingest.Bundle.{
  IsAt, AreIngested, ingest_from, ingest_fixture_bundle, bundle_resumes,
}
use nanexus_event_intelligen.Tests.Sample.{platform, unary}

abbrev frigate : FrigatePlatform
frigate = record {
  is_true = λ _. false;
  fromtimestamp = λ t. ok t;
  fixed6 = unary;
  uuid5 = λ _ n. text_length n;
  lower = λ s. s;
  substitute = λ s. s;
  review_message = λ _. none;
  object_message = λ _. none;
  tracked_object_update = λ _. none;
  json_time = unary;
}

abbrev pipeline : FrigateIngestPipeline
pipeline = record { source_instance_id = 2; camera_ids = [] }

-- A message whose topic is the line.
abbrev message : String → FixtureMessage
message line = record {
  topic = line;
  observed_at = 12;
  qos = 0;
  retain = false;
  payload_sha256 = "{}";
  payload = field "state" (text "online") end;
}

abbrev reader : BundleReader
reader = record {
  loads = λ _. ok (field "contains_secrets" (bool false) end);
  fixture_message = λ line. some (message line);
  show = unary;
}

abbrev files : BundleFiles
files = record {
  metadata = some "{}";
  messages = some ("a/available" ∷ "b/available" ∷ "c/available" ∷ []);
}

abbrev messages : List FixtureMessage
messages = message "a/available" ∷ message "b/available" ∷ message "c/available" ∷ []

abbrev int : String → Option ℕ
int s = some (text_length s)

int-unary : (n : ℕ) → int (unary n) ≡ some n
int-unary n = ap some (counted n)
  where
    counted : (n : ℕ) → text_length (unary n) ≡ n
    counted zero = refl
    counted (suc n) = ground (arith, length-append "i" (unary n), counted n)

abbrev draws : ℕ → Draws
draws index = record { id = λ n. n + 100 * index; now = λ n. n + 1000 * index }

abbrev results_of : Result (List IngestResult × Database) → List IngestResult
results_of (ok (rs, db)) = rs
results_of (err e) = []

abbrev tables_of : Result (List IngestResult × Database) → Database
tables_of (ok (rs, db)) = db
tables_of (err e) = empty_database

unfoldable first : Result (List IngestResult × Database)
first =
    ingest_fixture_bundle platform frigate reader int draws pipeline "s" files (some 2)
      empty_database

unfoldable second : Result (List IngestResult × Database)
unfolding first
second =
    ingest_fixture_bundle platform frigate reader int draws pipeline "s" files none
      (tables_of first)

bundle_resumes_example :
    AreIngested platform frigate reader int draws pipeline "s" 0 messages
      (results_of first ++ results_of second)
      empty_database
      (tables_of second)
    × (length (results_of first) ≡ min 2 3)
    × (length (results_of first) + length (results_of second) ≡ 3)
    × IsAt platform frigate reader int draws pipeline "s" 3 (tables_of second)
unfolding first second ingest_fixture_bundle ingest_from ingest finish raw_key join redact ends_with
    RawMessages.add Checkpoints.advance insert_checkpoint insert_raw_message load_fixture_bundle
    load_lines
bundle_resumes_example =
    bundle_resumes platform frigate reader int draws pipeline "s" int-unary files 2 messages 0
      empty_database (tables_of first) (tables_of second) (results_of first) (results_of second)
      refl refl (omega arith) refl refl
