-- ===== src/Messaging/Outbox/Sent.antt =====
-- Events that are marked published, and the messages that the publisher accepted.
use krampus.Prelude.{
  All-map, ℕ, String, none, some, List, [], ◌∷◌, ◌++◌, ◌≡◌, ◌⊎◌, refl, ◌∙◌, ap, inl, inr, str_eq,
  str_eq→eq, Option-cases, Bool-cases, In, All,
}
use krampus.Domain.Message.{Message, GoLib, CreatedEvent}
use krampus.Storage.Fault.{Fault, exec}
use krampus.Storage.Messages.{MessageRow, find_message, restored}
use krampus.Storage.Outbox.{
  OutboxEvent, update_event, with_publication, with_failure, mark_published, increment_retry,
}
use krampus.Messaging.Outbox.{OutboxWorld, Attempt, send_message, count_failure}
use krampus.Messaging.Outbox.Rows.{HasPayload, updated_keyed}

-- The row is unpublished, or its payload names a stored message that was handed to the publisher.
abbrev pub IsSent : GoLib → List MessageRow → List Message → OutboxEvent → Type 0
IsSent lib messages published e =
    (e.published_at ≡ none)
    ⊎ ((c : CreatedEvent) × (r : MessageRow) × (lib.unmarshal_created e.payload ≡ inr c)
        × (find_message c.message_id messages ≡ some r)
        × In (restored r) published)

-- The id of a row decides its payload, and every published row is sent.
pub record IsHonest (lib : GoLib) (w : OutboxWorld) : Type 0 where
  pub keyed : All (λ e. All (HasPayload e) w.events) w.events
  pub honest : All (IsSent lib w.messages w.published) w.events

pub exec_keeps :
    {T : Type 0} (P : T → Type 0) (fault : Fault) (t t' : T) → P t → P t' → P (exec fault t t').1
exec_keeps P none t t' h h' = h'
exec_keeps P (some e) t t' h h' = h

In-append : (m n : Message) (ms : List Message) → In m ms → In m (ms ++ n ∷ [])
In-append m n [] h = absurd h
In-append m n (x ∷ ms) (inl e) = inl e
In-append m n (x ∷ ms) (inr h) = inr (In-append m n ms h)

In-last : (m : Message) (ms : List Message) → In m (ms ++ m ∷ [])
In-last m [] = inl refl
In-last m (x ∷ ms) = inr (In-last m ms)

IsSent-append :
    (lib : GoLib) (messages : List MessageRow) (published : List Message) (m : Message)
    (e : OutboxEvent)
    → IsSent lib messages published e
    → IsSent lib messages (published ++ m ∷ []) e
IsSent-append lib messages published m e (inl u) = inl u
IsSent-append lib messages published m e (inr (c, r, d, f, i)) =
    inr (c, r, d, f, In-append (restored r) m published i)

failed-IsSent :
    (lib : GoLib) (messages : List MessageRow) (published : List Message) (text id : String)
    (rows : List OutboxEvent)
    → All (IsSent lib messages published) rows
    → All (IsSent lib messages published) (update_event (with_failure text) id rows)
unfolding update_event
failed-IsSent lib messages published text id [] h = tt
failed-IsSent lib messages published text id (x ∷ rows) h = elim (Bool-cases (str_eq x.id id)) [
  | inl c ↦ rw (c, update_event) (h.0, failed-IsSent lib messages published text id rows h.1)
  | inr c ↦ rw (c, update_event) (h.0, failed-IsSent lib messages published text id rows h.1)
]

-- The rows of an event are marked once its message is among the published.
marked-IsSent :
    (lib : GoLib) (messages : List MessageRow) (published : List Message) (now : ℕ)
    (e : OutboxEvent) (c : CreatedEvent) (r : MessageRow) (rows : List OutboxEvent)
    → lib.unmarshal_created e.payload ≡ inr c
    → find_message c.message_id messages ≡ some r
    → In (restored r) published
    → All (HasPayload e) rows
    → All (IsSent lib messages published) rows
    → All (IsSent lib messages published) (update_event (with_publication now) e.id rows)
unfolding update_event
marked-IsSent lib messages published now e c r [] d f i p h = tt
marked-IsSent lib messages published now e c r (x ∷ rows) d f i p h =
    elim (Bool-cases (str_eq x.id e.id)) [
      | inl q ↦
          rw (q, update_event)
            (
              inr (c, r, ap lib.unmarshal_created (p.0 (str_eq→eq x.id e.id q)) ∙ d, f, i),
              marked-IsSent lib messages published now e c r rows d f i p.1 h.1,
            )
      | inr q ↦
          rw (q, update_event)
            (h.0, marked-IsSent lib messages published now e c r rows d f i p.1 h.1)
    ]

abbrev AllKeyed : List OutboxEvent → Type 0
AllKeyed rows = All (λ e. All (HasPayload e) rows) rows

pub count_failure-IsHonest :
    (lib : GoLib) (a : Attempt) (e : OutboxEvent) (text : String) (w : OutboxWorld)
    → IsHonest lib w
    → IsHonest lib (count_failure a e text w)
unfolding count_failure increment_retry
count_failure-IsHonest lib a e text w h = record {
  keyed =
      exec_keeps AllKeyed a.retry_fault w.events _ h.keyed
        (updated_keyed (with_failure text) e.id w.events (λ x. (refl, refl)) h.keyed);
  honest =
      exec_keeps (All (IsSent lib w.messages w.published)) a.retry_fault w.events _ h.honest
        (failed-IsSent lib w.messages w.published text e.id w.events h.honest);
}

pub send_message-IsHonest :
    (lib : GoLib) (a : Attempt) (e : OutboxEvent) (c : CreatedEvent) (r : MessageRow)
    (w : OutboxWorld)
    → lib.unmarshal_created e.payload ≡ inr c
    → find_message c.message_id w.messages ≡ some r
    → All (HasPayload e) w.events
    → IsHonest lib w
    → IsHonest lib (send_message a e (restored r) w)
unfolding send_message mark_published
send_message-IsHonest lib a e c r w d f p h = elim (Option-cases a.publish_fault) [
  | inr (text, x) ↦ simp (x, send_message) (count_failure-IsHonest lib a e text w h)
  | inl x ↦ simp (x, send_message) (sent_honest x)
]
  where
    published : List Message
    published = w.published ++ restored r ∷ []

    grown : All (IsSent lib w.messages published) w.events
    grown =
        All-map (IsSent lib w.messages w.published) (IsSent lib w.messages published) w.events
          (λ x. IsSent-append lib w.messages w.published (restored r) x) h.honest

    sent_honest :
        a.publish_fault ≡ none
        → IsHonest lib (record w {
          published = w.published ++ restored r ∷ [];
          events = (mark_published a.mark_fault a.now e.id w.events).1;
        })
    sent_honest x = record {
      keyed =
          exec_keeps AllKeyed a.mark_fault w.events _ h.keyed
            (updated_keyed (with_publication a.now) e.id w.events (λ x. (refl, refl)) h.keyed);
      honest = exec_keeps (All (IsSent lib w.messages published)) a.mark_fault w.events _ grown (
          marked-IsSent lib w.messages published a.now e c r w.events d f
            (In-last (restored r) w.published) p grown);
    }
