-- ===== src/Messaging/Outbox/Batch.antt =====
-- What a batch without failures publishes, and what of a message comes back from its row.
use krampus.Prelude.{
  ℕ, suc, String, Option, none, some, List, [], ◌∷◌, ◌++◌, ◌≡◌, refl, sym, ◌∙◌, inl, inr, arith,
  ◌⊎◌, str_eq_refl, Option-cases, Sum-cases, filter, take,
}
use mathlib.Core.List.{append_assoc, append-nil}
use krampus.Prelude.Int.{pos}
use krampus.Domain.Errors.{ok}
use krampus.Domain.Message.{Message, GoLib, CreatedEvent, no_metadata}
use krampus.Storage.Messages.{
  MessageRow, message_row, find_message, save_message, get_message, restored,
}
use krampus.Storage.Outbox.{OutboxEvent, get_unpublished_events, order_by_creation, is_unpublished}
use krampus.Messaging.Outbox.{
  OutboxWorld, Attempt, publish_event, publish_all, process_outbox, send_message, count_failure,
}

abbrev of_row : Option MessageRow → List Message
of_row none = []
of_row (some r) = restored r ∷ []

-- The message of an event, if its payload decodes and the message that it names is stored.
abbrev of_created : List MessageRow → String ⊎ CreatedEvent → List Message
of_created messages (inl text) = []
of_created messages (inr c) = of_row (find_message c.message_id messages)

abbrev pub messages_of : GoLib → List MessageRow → List OutboxEvent → List Message
messages_of lib messages [] = []
messages_of lib messages (e ∷ events) =
    of_created messages (lib.unmarshal_created e.payload) ++ messages_of lib messages events

abbrev pub IsQuiet : Attempt → Type 0
IsQuiet a = (a.load_fault ≡ none) × (a.publish_fault ≡ none)

publish_event-quiet :
    (lib : GoLib) (a : Attempt) (e : OutboxEvent) (w : OutboxWorld)
    → IsQuiet a
    → ((publish_event lib a e w).published
        ≡ w.published ++ of_created w.messages (lib.unmarshal_created e.payload))
      × ((publish_event lib a e w).messages ≡ w.messages)
unfolding publish_event send_message count_failure get_message
publish_event-quiet lib a e w (load, publish) = elim (Sum-cases (lib.unmarshal_created e.payload)) [
  | inl (text, h) ↦ simp (h, publish_event, count_failure) (sym (append-nil w.published), refl)
  | inr (c, h) ↦ elim (Option-cases (find_message c.message_id w.messages)) [
    | inl f ↦
        simp (h, load, f, publish_event, get_message, count_failure)
          (sym (append-nil w.published), refl)
    | inr (r, f) ↦ simp (h, load, publish, f, publish_event, get_message, send_message) (refl, refl)
  ]
]

publish_all-quiet :
    (lib : GoLib) (attempts : ℕ → Attempt) (i : ℕ) (events : List OutboxEvent) (w : OutboxWorld)
    → ((n : ℕ) → IsQuiet (attempts n))
    → (publish_all lib attempts i events w).published
      ≡ w.published ++ messages_of lib w.messages events
unfolding publish_all
publish_all-quiet lib attempts i [] w quiet = sym (append-nil w.published)
publish_all-quiet lib attempts i (e ∷ events) w quiet =
    let step = publish_event-quiet lib (attempts i) e w (quiet i) in
    publish_all-quiet lib attempts (suc i) events (publish_event lib (attempts i) e w) quiet
    ∙ rw (step.0, step.1)
        (append_assoc w.published (of_created w.messages (lib.unmarshal_created e.payload))
          (messages_of lib w.messages events))

find_last :
    (new : MessageRow) (rows : List MessageRow)
    → find_message new.id rows ≡ none
    → find_message new.id (rows ++ new ∷ []) ≡ some new
unfolding find_message
find_last new [] h = ground (arith, str_eq_refl new.id)
find_last new (r ∷ rows) h = ground (arith, find_last new rows)

-- Where no load and no publication fails, a batch publishes, in the order of creation, the message of
-- each of the first hundred unpublished events whose payload decodes and whose message is stored.
pub process_outbox-published :
    (lib : GoLib) (attempts : ℕ → Attempt) (w : OutboxWorld)
    → ((n : ℕ) → IsQuiet (attempts n))
    → (process_outbox lib none attempts w).published
      ≡ w.published
        ++ messages_of lib w.messages
            (take 100 (order_by_creation (filter is_unpublished w.events)))
unfolding process_outbox get_unpublished_events
process_outbox-published lib attempts w quiet =
    publish_all-quiet lib attempts 0 (take 100 (order_by_creation (filter is_unpublished w.events)))
      w quiet

-- A message that is stored under a new id comes back from the table, and so from the outbox, with its
-- payload as the JSONB column keeps it, the time of its row, version 0 and no metadata.
pub get_message-save_message :
    (lib : GoLib) (now : ℕ) (msg : Message) (rows : List MessageRow)
    → find_message msg.id rows ≡ none
    → get_message none msg.id (save_message lib none now msg rows).1
      ≡ ok (record msg {
        payload = lib.jsonb msg.payload;
        timestamp = pos now;
        version = pos 0;
        metadata = no_metadata;
      })
unfolding save_message get_message
get_message-save_message lib now msg rows fresh =
    simp (fresh, save_message, get_message, find_last (message_row lib now msg) rows fresh)
