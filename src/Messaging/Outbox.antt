-- ===== src/Messaging/Outbox.antt =====
-- `OutboxWorker` of internal/message/service/outboxWorker.go. The publisher is a parameter: whether it
-- accepts a message is part of an attempt, and `published` lists what it accepted.
pub mod Rows
pub mod Sent
pub mod Safety
pub mod Batch
use krampus.Prelude.{ℕ, suc, String, Option, none, some, List, [], ◌∷◌, ◌++◌, inl, inr}
use krampus.Domain.Errors.{Error, Result, ok, err, error_text}
use krampus.Domain.Message.{Message, GoLib}
use krampus.Storage.Fault.{Fault}
use krampus.Storage.Messages.{MessageRow, get_message}
use krampus.Storage.Outbox.{OutboxEvent, get_unpublished_events, mark_published, increment_retry}

pub record OutboxWorld : Type 0 where
  pub events : List OutboxEvent
  pub messages : List MessageRow
  pub published : List Message

pub record Attempt : Type 0 where
  pub now : ℕ
  pub load_fault : Fault
  pub publish_fault : Fault
  pub mark_fault : Fault
  pub retry_fault : Fault

-- `_ = w.repo.IncrementRetry(...)`
unfoldable pub count_failure : Attempt → OutboxEvent → String → OutboxWorld → OutboxWorld
unfolding increment_retry
count_failure a e text w = record w {
  events = (increment_retry a.retry_fault e.id text w.events).1;
}

-- `Publish`, and `MarkPublished` after it
unfoldable pub send_message : Attempt → OutboxEvent → Message → OutboxWorld → OutboxWorld
unfolding count_failure mark_published
send_message a e msg w = elim a.publish_fault [
  | some text ↦ count_failure a e text w
  | none ↦ record w {
    published = w.published ++ msg ∷ [];
    events = (mark_published a.mark_fault a.now e.id w.events).1;
  }
]

-- the body of the loop of `process`
unfoldable pub publish_event : GoLib → Attempt → OutboxEvent → OutboxWorld → OutboxWorld
unfolding count_failure send_message get_message error_text
publish_event lib a e w = elim (lib.unmarshal_created e.payload) [
  | inl text ↦ count_failure a e text w
  | inr created ↦ elim (get_message a.load_fault created.message_id w.messages) [
    | err x ↦ count_failure a e (error_text x) w
    | ok msg ↦ send_message a e msg w
  ]
]

unfoldable pub publish_all :
    GoLib → (ℕ → Attempt) → ℕ → List OutboxEvent → OutboxWorld → OutboxWorld
unfolding publish_event
publish_all lib attempts i [] w = w
publish_all lib attempts i (e ∷ events) w =
    publish_all lib attempts (suc i) events (publish_event lib (attempts i) e w)

abbrev pub outbox_batch : ℕ
outbox_batch = 100

-- `process`
unfoldable pub process_outbox : GoLib → Fault → (ℕ → Attempt) → OutboxWorld → OutboxWorld
unfolding get_unpublished_events publish_all
process_outbox lib fault attempts w = elim (get_unpublished_events fault outbox_batch w.events) [
  | err e ↦ w
  | ok events ↦ publish_all lib attempts 0 events w
]
