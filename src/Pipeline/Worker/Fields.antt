-- ===== src/Pipeline/Worker/Fields.antt =====
-- pipeline/worker.py: what can be read from the fields of a dead letter.
use nanexus_event_intelligen.Prelude.{
  ℕ, String, ◌≡◌, refl, ap, ◌∙◌, inl, inr, false, some, [], ◌∷◌, ◌==◌, string_eq, ==_refl, ==_eq,
  lookup, Bool-cases, if◌then◌else◌,
}
use nanexus_event_intelligen.Pipeline.Config.{RedisStreamConfig}
use nanexus_event_intelligen.Pipeline.Outbox.{Entry}
use nanexus_event_intelligen.Pipeline.Worker.{dlq_fields, set_field}
use nanexus_event_intelligen.Pipeline.Worker.Decode.{Message, put}

lookup-put : (k v : String) (entry : Entry) → lookup k (put k v entry) ≡ some v
lookup-put k v [] = rw (==_refl k) refl
lookup-put k v ((j, w) ∷ entry) = elim (Bool-cases (j == k)) [
  | inl e ↦ rw e (rw (==_refl k) refl)
  | inr e ↦ rw (e, e) (lookup-put k v entry)
]

lookup-put_other :
    (j k v : String) (entry : Entry) → (k == j) ≡ false → lookup j (put k v entry) ≡ lookup j entry
lookup-put_other j k v [] h = rw h refl
lookup-put_other j k v ((i, w) ∷ entry) h = elim (Bool-cases (i == k)) [
  | inl e ↦ rw e (rw h (rw (ap (λ t. t == j) (==_eq i k e) ∙ h) refl))
  | inr e ↦ rw e (ap (λ rest. if i == j then some w else rest) (lookup-put_other j k v entry h))
]

-- A dead letter names the message that it was made from.
pub dlq_fields-source :
    (show : ℕ → String) (config : RedisStreamConfig) (message : Message) (attempts : ℕ)
    (error : String)
    → lookup "source_message_id" (dlq_fields show config message attempts error) ≡ some message.0
dlq_fields-source show config (id, entry) attempts error =
    let sourced =
      set_field "source_message_id" id (set_field "source_stream" config.stream entry) in
    lookup-put_other "source_message_id" "error_type" error
      (set_field "delivery_attempts" (show attempts) sourced) refl
    ∙ lookup-put_other "source_message_id" "delivery_attempts" (show attempts) sourced refl
    ∙ lookup-put "source_message_id" id (set_field "source_stream" config.stream entry)
