-- ===== src/Frigate/Http/Media/Evidence.antt =====
-- adapters/frigate/evidence_reader.py: what the reader of evidence gives.
use mathlib.Core.Path.{subst}
use nanexus_event_intelligen.Prelude.{
  ◌≤◌, String, ◌≡◌, refl, arith, Bool, true, false, not, ◌||◌, Option, none, some, length, contains,
  ltb, ◌==◌, string_eq, if◌then◌else◌,
}
use nanexus_event_intelligen.Processor.Subject.{EvidenceContentRequest}
use nanexus_event_intelligen.Frigate.Http.Config.{SplitUrl, FrigateHttpConfig}
use nanexus_event_intelligen.Frigate.Http.Client.{
  Bytes, Outcome, value, failed, api, invalid, httpx, FrigateApiError,
}
use nanexus_event_intelligen.Frigate.Http.Api.{MediaResponse}
use nanexus_event_intelligen.Frigate.Http.Media.{
  allowed_image_types, Settings, Reply, served, http_exception, unavailable, raised, config,
  event_id_of_request, type_of, evidence_of, read_with, read_event, read,
}

module _ (urlsplit : String → SplitUrl) (strip lower : String → String) (settings : Settings)
    (fetch : FrigateHttpConfig → String → Outcome MediaResponse) where
  -- An image of a type in the list, of at most 10 MiB.
  abbrev IsSmallImage : Bytes × String → Type 0
  IsSmallImage e = (contains allowed_image_types e.1 ≡ true) × (length e.0 ≤ 10485760)

  evidence_of-IsSmallImage :
      (o : Outcome MediaResponse) (e : Bytes × String)
      → evidence_of urlsplit strip lower settings fetch o ≡ served e
      → IsSmallImage e
  evidence_of-IsSmallImage (failed (api (FrigateApiError.not_found_error t))) e h =
      absurd (ground arith)
  evidence_of-IsSmallImage (failed (api (FrigateApiError.transient_error t))) e h =
      absurd (ground arith)
  evidence_of-IsSmallImage (failed (api (FrigateApiError.authentication_error t))) e h =
      absurd (ground arith)
  evidence_of-IsSmallImage (failed (api (FrigateApiError.protocol_error t))) e h =
      absurd (ground arith)
  evidence_of-IsSmallImage (failed (api (FrigateApiError.response_too_large_error t))) e h =
      absurd (ground arith)
  evidence_of-IsSmallImage (failed (invalid t)) e h = absurd (ground arith)
  evidence_of-IsSmallImage (failed (httpx x)) e h = absurd (ground arith)
  evidence_of-IsSmallImage (value media) e h =
      by_tests (contains allowed_image_types (type_of urlsplit strip lower settings fetch media))
        (ltb 10485760 (length media.content)) refl refl h
    where
      by_tests :
          (a b : Bool)
          → contains allowed_image_types (type_of urlsplit strip lower settings fetch media) ≡ a
          → ltb 10485760 (length media.content) ≡ b
          → (if not a || b
              then unavailable "media_limits" false
              else served (media.content, type_of urlsplit strip lower settings fetch media))
            ≡ served e
          → IsSmallImage e
      by_tests false b t s h = absurd (ground arith)
      by_tests true true t s h = absurd (ground arith)
      by_tests true false t s h =
          let same : (media.content, type_of urlsplit strip lower settings fetch media) ≡ e = cc in
          subst IsSmallImage same (t, ground arith)

  read_with-IsSmallImage :
      (event_id : String) (r : Reply FrigateHttpConfig) (e : Bytes × String)
      → read_with urlsplit strip lower settings fetch event_id r ≡ served e
      → IsSmallImage e
  read_with-IsSmallImage event_id (served c) e h = evidence_of-IsSmallImage (fetch c event_id) e h
  read_with-IsSmallImage event_id (http_exception code detail) e h = absurd (ground arith)
  read_with-IsSmallImage event_id (unavailable code b) e h = absurd (ground arith)
  read_with-IsSmallImage event_id (raised x) e h = absurd (ground arith)

  -- Evidence that the reader gives to an external processor, whatever the client fetches, is an image:
  -- its type is in the list of allowed types and it has at most 10 MiB.
  pub read-IsSmallImage :
      (q : EvidenceContentRequest) (content : Bytes) (kind : String)
      → read urlsplit strip lower settings fetch q ≡ served (content, kind)
      → (contains allowed_image_types kind ≡ true) × (length content ≤ 10485760)
  unfolding read
  read-IsSmallImage q content kind h = by_source (q.source_type == "frigate") h
    where
      by_id :
          (id : Option String)
          → read_event urlsplit strip lower settings fetch id ≡ served (content, kind)
          → IsSmallImage (content, kind)
      by_id none h = absurd (ground arith)
      by_id (some event_id) h =
          read_with-IsSmallImage event_id (config urlsplit settings) (content, kind) h

      by_source :
          (b : Bool)
          → (if b
              then read_event urlsplit strip lower settings fetch (event_id_of_request q)
              else unavailable "unsupported_source" false)
            ≡ served (content, kind)
          → IsSmallImage (content, kind)
      by_source true h = by_id (event_id_of_request q) h
      by_source false h = absurd (ground arith)
