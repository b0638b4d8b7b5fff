-- ===== src/Frigate/Http/Media/Links.antt =====
-- adapters/frigate/pipeline.py and media_api.py: the event that a stored review leads to.
use nanexus_event_intelligen.Prelude.{
  String, ◌≡◌, refl, sym, ap, ◌∙◌, arith, Bool, true, false, not, Option, none, some, List, ◌∷◌,
  map, ◌==◌, string_eq, if◌then◌else◌,
}
use nanexus_event_intelligen.Prelude.Texts.{append}
use nanexus_event_intelligen.Core.{Uuid, ok, err, Platform, Draws, frigate_protocol_error}
use nanexus_event_intelligen.Core.Payload.{Json, Fields, end, field, get}
use nanexus_event_intelligen.Core.SourceAdapter.{Link, CanonicalSourceEvent}
use nanexus_event_intelligen.Persistence.Models.{Observation}
use nanexus_event_intelligen.Frigate.Payloads.{FrigatePlatform, ReviewMessage}
use nanexus_event_intelligen.Frigate.Replay.{FixtureMessage}
use nanexus_event_intelligen.Frigate.Normalizer.{
  Incoming, normalize_frigate_message, normalize-HasParts,
}
use nanexus_event_intelligen.Frigate.Normalizer.Branches.{
  Parsed, ends_with, of_review, of_object, of_update, validated, severity_field, parse,
}
use nanexus_event_intelligen.Frigate.Ingest.{FrigateIngestPipeline}
use nanexus_event_intelligen.Frigate.Ingest.Dump.{dump_links}
use nanexus_event_intelligen.Frigate.Ingest.History.{extended, with_history}
use nanexus_event_intelligen.Frigate.Ingest.Persisted.{observation_of}
use nanexus_event_intelligen.Frigate.Http.Media.{
  linked_event, links_of, first_link, event_id_of_observation,
}

get-extended :
    (key : String) (fields rest : Fields)
    → get key fields ≡ none
    → get key (extended fields rest) ≡ get key rest
get-extended key end rest h = refl
get-extended key (field k v fields) rest h = by_test (k == key) h (get-extended key fields rest)
  where
    by_test :
        (b : Bool)
        → (if b then some v else get key fields) ≡ none
        → (get key fields ≡ none → get key (extended fields rest) ≡ get key rest)
        → (if b then some v else get key (extended fields rest)) ≡ get key rest
    by_test true e k = absurd (ground arith)
    by_test false e k = k e

first_link-dump :
    (l : Link) (ls : List Link)
    → l.namespace ≡ "frigate.event"
    → links_of (some (dump_links (l ∷ ls))) ≡ some l.source_entity_id
unfolding first_link
first_link-dump l ls e = ap (λ n. links_of (some (dump_links (record l { namespace = n } ∷ ls)))) e

severity-links : (s : Option String) → get "links" (severity_field s) ≡ none
severity-links none = refl
severity-links (some s) = by_test (s == "")
  where
    by_test :
        (b : Bool) → get "links" (if not b then field "severity" (Json.text s) end else end) ≡ none
    by_test true = refl
    by_test false = refl

linked_event-with_history :
    (history : List Observation) (event : CanonicalSourceEvent) (entity : String) (l : Link)
    (ls : List Link)
    → event.source_namespace ≡ "frigate.review"
    → get "links" event.extensions ≡ none
    → event.links ≡ l ∷ ls
    → l.namespace ≡ "frigate.event"
    → linked_event
        (with_history history event).source_namespace
        entity
        (with_history history event).extensions
      ≡ some l.source_entity_id
unfolding with_history linked_event
linked_event-with_history history event entity l ls n unlinked links e =
    ap (λ s. linked_event s entity (with_history history event).extensions) n
    ∙ ap links_of (get-extended "links" event.extensions _ unlinked)
    ∙ ap (λ ls. links_of (some (dump_links ls))) links
    ∙ first_link-dump l ls e

module _ (platform : Platform) (frigate : FrigatePlatform) where
  parse-review :
      (topic : String) (payload : Fields) (r : ReviewMessage)
      → ends_with "/reviews" topic ≡ true
      → frigate.review_message payload ≡ some r
      → parse frigate topic payload ≡ ok (of_review frigate r)
  parse-review topic payload r h k =
      ap
        (λ b.
          if b
          then validated (of_review frigate) (frigate.review_message payload)
          else if ends_with "/events" topic
          then validated (of_object frigate) (frigate.object_message payload)
          else if ends_with "/tracked_object_update" topic
          then validated of_update (frigate.tracked_object_update payload)
          else err (frigate_protocol_error (append "unsupported Frigate event topic: " topic)))
        h
      ∙ ap (validated (of_review frigate)) k

  -- The links of a review go through the database: the normalizer writes one for each detection into
  -- the event, the ingest stores them as JSON in the observation, and the snapshot of the stored
  -- observation is that of the review's first detection, where it has one, whatever the history.
  pub event_id-observation_of :
      (draws : Draws) (pipeline : FrigateIngestPipeline) (fixture : FixtureMessage)
      (stream cursor : String) (message : Incoming) (event : CanonicalSourceEvent)
      (r : ReviewMessage) (history : List Observation) (raw_id : Uuid) (detection : String)
      (rest : List String)
      → ends_with "/reviews" message.topic ≡ true
      → frigate.review_message message.payload ≡ some r
      → r.after.«data».detections ≡ detection ∷ rest
      → normalize_frigate_message platform frigate message ≡ ok event
      → event_id_of_observation (
          observation_of platform frigate draws pipeline fixture stream cursor raw_id
            (with_history history event))
        ≡ some detection
  unfolding with_history
  event_id-observation_of draws pipeline fixture stream cursor message event r history raw_id
        detection rest topic read detections h =
      let (p, parsed, parts) = normalize-HasParts platform frigate message event h in
      let same : p ≡ of_review frigate r =
        same_value p (of_review frigate r)
          (sym parsed ∙ parse-review message.topic message.payload r topic read) in
      linked_event-with_history history event event.source_entity_id
        (record {
          relation = "contains";
          namespace = "frigate.event";
          source_entity_id = detection;
        })
        (map
          (λ id. record {
            relation = "contains";
            namespace = "frigate.event";
            source_entity_id = id;
          })
          rest)
        (parts.1 ∙ ap (λ (x : Parsed). x.namespace) same)
        (ap (get "links") (parts.3 ∙ ap (λ (x : Parsed). x.extensions) same)
          ∙ severity-links r.after.severity)
        (parts.2
          ∙ ap (λ (x : Parsed). x.links) same
          ∙ ap
              (map λ id. record {
                relation = "contains";
                namespace = "frigate.event";
                source_entity_id = id;
              })
              detections)
        refl
    where
      same_value : (p q : Parsed) → ok p ≡ ok q → p ≡ q
      same_value p q e = cc
