-- ===== src/Frigate/Ingest/Clean.antt =====
-- adapters/frigate/pipeline.py: the payloads that the database keeps.
use mathlib.Core.Path.{subst}
use nanexus_event_intelligen.Prelude.{
  String, ◌≡◌, sym, ap, [], ◌∷◌, ◌++◌, string_eq, number_eq, All, All-append,
}
use nanexus_event_intelligen.Core.{ok, Platform, Draws}
use nanexus_event_intelligen.Core.Payload.{Fields}
use nanexus_event_intelligen.Persistence.Models.{RawSourceMessage}
use nanexus_event_intelligen.Persistence.Database.{Database}
use nanexus_event_intelligen.Frigate.Redaction.Clean.{HasCleanFields, redacted-HasCleanFields}
use nanexus_event_intelligen.Frigate.Payloads.{FrigatePlatform}
use nanexus_event_intelligen.Frigate.Replay.{FixtureMessage}
use nanexus_event_intelligen.Frigate.Ingest.{IngestResult, FrigateIngestPipeline, ingest}
use nanexus_event_intelligen.Frigate.Ingest.Cases.{
  IsSafe, Ends, repeated, set_aside, left_out, stored, ingest-Ends,
}

module _ (platform : Platform) (frigate : FrigatePlatform) where
  -- Every text of the payload is clean (see Frigate/Redaction/Clean).
  abbrev pub HasCleanPayload : RawSourceMessage → Type 0
  HasCleanPayload m = HasCleanFields frigate.lower frigate.substitute m.payload

  module _ (draws : Draws) (pipeline : FrigateIngestPipeline) (message : FixtureMessage)
      (stream cursor : String) where
    safe-HasCleanFields :
        (payload : Fields)
        → IsSafe platform frigate draws pipeline message stream cursor payload
        → HasCleanFields frigate.lower frigate.substitute payload
    safe-HasCleanFields payload safe =
        redacted-HasCleanFields frigate.lower frigate.substitute message.payload payload safe

    noted-All :
        (db : Database) (m : RawSourceMessage)
        → HasCleanPayload m
        → All HasCleanPayload db.raw_source_messages
        → All HasCleanPayload (db.raw_source_messages ++ m ∷ [])
    noted-All db m h k = All-append HasCleanPayload db.raw_source_messages (m ∷ []) k (h, tt)

    Ends-All :
        (db db' : Database) (r : IngestResult)
        → Ends platform frigate draws pipeline message stream cursor db db' r
        → All HasCleanPayload db.raw_source_messages
        → All HasCleanPayload db'.raw_source_messages
    Ends-All db db' r (repeated (e, known, s) moved) h =
        subst (All HasCleanPayload) (sym (ap (λ t. t.2) s)) h
    Ends-All db db' r (set_aside (payload, safe, e, s) moved) h =
        subst (All HasCleanPayload) (sym (ap (λ t. t.2) s))
          (noted-All db _ (safe-HasCleanFields payload safe) h)
    Ends-All db db' r (left_out (payload, safe, e, s) moved) h =
        subst (All HasCleanPayload) (sym (ap (λ t. t.2) s))
          (noted-All db _ (safe-HasCleanFields payload safe) h)
    Ends-All db db' r (stored (payload, event, history, internal, safe, n, g, e, s) moved) h =
        subst (All HasCleanPayload) (sym (ap (λ t. t.2) s))
          (noted-All db _ (safe-HasCleanFields payload safe) h)

    -- Where every raw message in the database has a clean payload (the value of each sensitive key is
    -- the word REDACTED, at any depth, and every other text has gone through the substitution of URL
    -- credentials), so it is after an ingest that ends well, whatever the message's payload.
    pub ingest-AllClean :
        (db db' : Database) (r : IngestResult)
        → All HasCleanPayload db.raw_source_messages
        → ingest platform frigate draws pipeline message stream cursor db ≡ ok (r, db')
        → All HasCleanPayload db'.raw_source_messages
    ingest-AllClean db db' r clean h =
        Ends-All db db' r
          (ingest-Ends platform frigate draws pipeline message stream cursor db db' r h) clean
