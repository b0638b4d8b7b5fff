-- ===== src/Frigate/Ingest/History.antt =====
-- adapters/frigate/pipeline.py: what the earlier observations of an entity add to its event.
use nanexus_event_intelligen.Prelude.{
  String, Bool, true, false, not, ◌&&◌, ◌||◌, List, [], ◌∷◌, max, ltb, ◌==◌, string_eq, any,
}
use nanexus_event_intelligen.Core.{Time}
use nanexus_event_intelligen.Core.Payload.{Fields, end, field, bool}
use nanexus_event_intelligen.Core.SourceAdapter.{Lifecycle, CanonicalSourceEvent}
use nanexus_event_intelligen.Persistence.Models.{Observation}
use nanexus_event_intelligen.Frigate.Ingest.Dump.{dump_links}

abbrev has_lifecycle : String → Observation → Bool
has_lifecycle word o = o.lifecycle == word

abbrev is_ended : Observation → Bool
is_ended o = has_lifecycle "ended" o || has_lifecycle "deleted" o

-- `max(item.occurred_at for item in history)`, of a history that has one.
abbrev latest : Time → List Observation → Time
latest at [] = at
latest at (o ∷ os) = latest (max at o.occurred_at) os

abbrev pub out_of_order : CanonicalSourceEvent → List Observation → Bool
out_of_order event [] = false
out_of_order event (o ∷ os) = ltb event.occurred_at (latest o.occurred_at os)

abbrev is_started : Lifecycle → Bool
is_started Lifecycle.started = true
is_started other = false

abbrev may_follow_end : Lifecycle → Bool
may_follow_end Lifecycle.corrected = true
may_follow_end Lifecycle.deleted = true
may_follow_end other = false

abbrev pub after_terminal : CanonicalSourceEvent → List Observation → Bool
after_terminal event history = any is_ended history && not (may_follow_end event.lifecycle)

abbrev pub is_partial : CanonicalSourceEvent → List Observation → Bool
is_partial event history =
    not (is_started event.lifecycle) && not (any (has_lifecycle "started") history)

-- `{**extensions, ...}`; the keys of an event's extensions are others.
abbrev pub extended : Fields → Fields → Fields
extended end rest = rest
extended (field key j fields) rest = field key j (extended fields rest)

-- `event.model_copy(update=...)`
unfoldable pub with_history : List Observation → CanonicalSourceEvent → CanonicalSourceEvent
with_history history event = record event {
  partial_history = is_partial event history;
  extensions = extended event.extensions (
      field "links" (dump_links event.links) (
        field "out_of_order" (bool (out_of_order event history))
          (field "after_terminal" (bool (after_terminal event history)) end)));
}
