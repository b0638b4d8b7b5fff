-- ===== src/Frigate/Ingest/Reviews.antt =====
-- adapters/frigate/pipeline.py: the review item of a review's event.
use nanexus_event_intelligen.Prelude.{
  String, Option, none, some, ◌==◌, string_eq, or_else, if◌then◌else◌,
}
use nanexus_event_intelligen.Core.{Uuid, Draws}
use nanexus_event_intelligen.Core.Payload.{get, as_text}
use nanexus_event_intelligen.Core.SourceAdapter.{Lifecycle, CanonicalSourceEvent}
use nanexus_event_intelligen.Persistence.Models.{ReviewItem, ReviewStatus}

abbrev pub review_status : Lifecycle → ReviewStatus
review_status Lifecycle.started = ReviewStatus.active
review_status Lifecycle.updated = ReviewStatus.active
review_status Lifecycle.ended = ReviewStatus.ended
review_status Lifecycle.corrected = ReviewStatus.corrected
review_status Lifecycle.deleted = ReviewStatus.deleted

-- `a or b` on optional values that are true where they are there.
abbrev or_keep : {A : Type 0} → Option A → Option A → Option A
or_keep none kept = kept
or_keep (some a) kept = some a

-- `event.extensions.get("severity")`, and `... or review.severity`.
abbrev severity_of : CanonicalSourceEvent → Option String
severity_of event = as_text (get "severity" event.extensions)

abbrev severity_or : Option String → Option String → Option String
severity_or none kept = kept
severity_or (some s) kept = if s == "" then kept else some s

abbrev pub new_review : Draws → Uuid → CanonicalSourceEvent → ReviewItem
new_review draws id event = record {
  id = id;
  created_at = draws.now 2;
  camera_id = event.camera_id;
  status = review_status event.lifecycle;
  severity = severity_of event;
  start_at = or_else event.start_at event.occurred_at;
  end_at = event.end_at;
  labels = event.labels;
  zones = event.zones;
  source_revision = event.source_revision;
}

abbrev pub revised : CanonicalSourceEvent → ReviewItem → ReviewItem
revised event review = record review {
  camera_id = or_keep event.camera_id review.camera_id;
  status = review_status event.lifecycle;
  severity = severity_or (severity_of event) review.severity;
  end_at = or_keep event.end_at review.end_at;
  labels = event.labels;
  zones = event.zones;
  source_revision = event.source_revision;
}
