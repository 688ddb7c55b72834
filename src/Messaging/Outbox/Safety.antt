-- ===== src/Messaging/Outbox/Safety.antt =====
-- Which events a batch marks published, against what the publisher accepted.
use krampus.Prelude.{
  All-map, All-take, All-filter, ℕ, suc, String, none, some, List, [], ◌∷◌, ◌≡◌, refl, inl, inr,
  Option-cases, Sum-cases, filter, take, All,
}
use krampus.Domain.Message.{GoLib, CreatedEvent}
use krampus.Storage.Fault.{Fault}
use krampus.Storage.Messages.{MessageRow, find_message, get_message, restored}
use krampus.Storage.Outbox.{
  OutboxEvent, get_unpublished_events, order_by_creation, is_unpublished, with_publication,
  with_failure, mark_published, increment_retry,
}
use krampus.Messaging.Outbox.{
  OutboxWorld, Attempt, publish_event, publish_all, process_outbox, send_message, count_failure,
}
use krampus.Messaging.Outbox.Rows.{HasPayload, All-order, All-HasPayload-update}
use krampus.Messaging.Outbox.Sent.{
  IsHonest, exec_keeps, count_failure-IsHonest, send_message-IsHonest,
}

-- What the worker does with an event: it counts a failure, or sends the message of the event.
data Does (lib : GoLib) (a : Attempt) (e : OutboxEvent) (w : OutboxWorld)
    : OutboxWorld → Type 0 where
  counts : (text : String) → Does lib a e w (count_failure a e text w)
  sends :
      (c : CreatedEvent) (r : MessageRow)
      → lib.unmarshal_created e.payload ≡ inr c
      → find_message c.message_id w.messages ≡ some r
      → Does lib a e w (send_message a e (restored r) w)

publish_event-Does :
    (lib : GoLib) (a : Attempt) (e : OutboxEvent) (w : OutboxWorld)
    → Does lib a e w (publish_event lib a e w)
unfolding publish_event get_message
publish_event-Does lib a e w = elim (Sum-cases (lib.unmarshal_created e.payload)) [
  | inl (text, h) ↦ simp (h, publish_event) (counts text)
  | inr (c, h) ↦ elim (Option-cases a.load_fault) [
    | inr (x, l) ↦ simp (h, l, publish_event, get_message) (counts _)
    | inl l ↦ elim (Option-cases (find_message c.message_id w.messages)) [
      | inl f ↦ simp (h, l, f, publish_event, get_message) (counts _)
      | inr (r, f) ↦ simp (h, l, f, publish_event, get_message) (sends c r h f)
    ]
  ]
]

count_failure-HasPayload :
    (a : Attempt) (e d : OutboxEvent) (text : String) (w : OutboxWorld)
    → All (HasPayload d) w.events
    → All (HasPayload d) (count_failure a e text w).events
unfolding count_failure increment_retry
count_failure-HasPayload a e d text w h =
    exec_keeps (All (HasPayload d)) a.retry_fault w.events _ h
      (All-HasPayload-update (with_failure text) e.id d w.events (λ x. (refl, refl)) h)

Does-HasPayload :
    (lib : GoLib) (a : Attempt) (e d : OutboxEvent) (w : OutboxWorld) (w' : OutboxWorld)
    → Does lib a e w w'
    → All (HasPayload d) w.events
    → All (HasPayload d) w'.events
unfolding send_message mark_published
Does-HasPayload lib a e d w w' (counts text) h = count_failure-HasPayload a e d text w h
Does-HasPayload lib a e d w w' (sends c r x f) h = elim (Option-cases a.publish_fault) [
  | inr (text, q) ↦ simp (q, send_message) (count_failure-HasPayload a e d text w h)
  | inl q ↦
      simp (q, send_message)
        (exec_keeps (All (HasPayload d)) a.mark_fault w.events _ h
          (All-HasPayload-update (with_publication a.now) e.id d w.events (λ x. (refl, refl)) h))
]

Does-IsHonest :
    (lib : GoLib) (a : Attempt) (e : OutboxEvent) (w w' : OutboxWorld)
    → Does lib a e w w'
    → All (HasPayload e) w.events
    → IsHonest lib w
    → IsHonest lib w'
Does-IsHonest lib a e w w' (counts text) p h = count_failure-IsHonest lib a e text w h
Does-IsHonest lib a e w w' (sends c r x f) p h = send_message-IsHonest lib a e c r w x f p h

publish_all-IsHonest :
    (lib : GoLib) (attempts : ℕ → Attempt) (i : ℕ) (events : List OutboxEvent) (w : OutboxWorld)
    → All (λ e. All (HasPayload e) w.events) events
    → IsHonest lib w
    → IsHonest lib (publish_all lib attempts i events w)
unfolding publish_all
publish_all-IsHonest lib attempts i [] w p h = h
publish_all-IsHonest lib attempts i (e ∷ events) w p h =
    let w' = publish_event lib (attempts i) e w in
    let did = publish_event-Does lib (attempts i) e w in
    publish_all-IsHonest lib attempts (suc i) events w'
      (All-map (λ d. All (HasPayload d) w.events) (λ d. All (HasPayload d) w'.events) events
        (λ d. Does-HasPayload lib (attempts i) e d w w' did) p.1)
      (Does-IsHonest lib (attempts i) e w w' did p.0 h)

-- Where the id of a row decides its payload, a batch keeps that, and that every row marked published
-- names a stored message that the publisher has accepted, whatever fails on the way.
pub process_outbox-IsHonest :
    (lib : GoLib) (fault : Fault) (attempts : ℕ → Attempt) (w : OutboxWorld)
    → IsHonest lib w
    → IsHonest lib (process_outbox lib fault attempts w)
unfolding process_outbox get_unpublished_events
process_outbox-IsHonest lib (some x) attempts w h = h
process_outbox-IsHonest lib none attempts w h =
    publish_all-IsHonest lib attempts 0
      (take 100 (order_by_creation (filter is_unpublished w.events))) w
      (All-take (λ e. All (HasPayload e) w.events) 100
        (order_by_creation (filter is_unpublished w.events))
        (All-order (λ e. All (HasPayload e) w.events) (filter is_unpublished w.events)
          (All-filter (λ e. All (HasPayload e) w.events) is_unpublished w.events h.keyed)))
      h
