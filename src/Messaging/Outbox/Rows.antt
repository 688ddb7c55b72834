-- ===== src/Messaging/Outbox/Rows.antt =====
-- What holds of all rows holds of the rows of a batch, and of the rows after an UPDATE.
use krampus.Prelude.{
  String, List, [], ◌∷◌, ◌≡◌, sym, ◌∙◌, inl, inr, str_eq, Bool-cases, All, All-map, leb,
}
use krampus.Storage.Outbox.{OutboxEvent, order_by_creation, insert_by_creation, update_event}

-- Rows with the id of `e` have its payload.
abbrev pub HasPayload : OutboxEvent → OutboxEvent → Type 0
HasPayload e f = f.id ≡ e.id → f.payload ≡ e.payload

All-insert :
    (P : OutboxEvent → Type 0) (e : OutboxEvent) (es : List OutboxEvent)
    → P e
    → All P es
    → All P (insert_by_creation e es)
unfolding insert_by_creation
All-insert P e [] p h = (p, tt)
All-insert P e (f ∷ es) p h = elim (Bool-cases (leb e.created_at f.created_at)) [
  | inl c ↦ rw (c, insert_by_creation) (p, h)
  | inr c ↦ rw (c, insert_by_creation) (h.0, All-insert P e es p h.1)
]

pub All-order :
    (P : OutboxEvent → Type 0) (es : List OutboxEvent) → All P es → All P (order_by_creation es)
unfolding order_by_creation
All-order P [] h = tt
All-order P (e ∷ es) h = All-insert P e (order_by_creation es) h.0 (All-order P es h.1)

-- An UPDATE that keeps ids and payloads keeps what they decide.
pub All-HasPayload-update :
    (f : OutboxEvent → OutboxEvent) (id : String) (e : OutboxEvent) (rows : List OutboxEvent)
    → ((x : OutboxEvent) → ((f x).id ≡ x.id) × ((f x).payload ≡ x.payload))
    → All (HasPayload e) rows
    → All (HasPayload e) (update_event f id rows)
unfolding update_event
All-HasPayload-update f id e [] same h = tt
All-HasPayload-update f id e (x ∷ rows) same h = elim (Bool-cases (str_eq x.id id)) [
  | inl c ↦
      rw (c, update_event)
        (λ i. (same x).1 ∙ h.0 (sym (same x).0 ∙ i), All-HasPayload-update f id e rows same h.1)
  | inr c ↦ rw (c, update_event) (h.0, All-HasPayload-update f id e rows same h.1)
]

-- A predicate of ids and payloads only.
pub keyed-update :
    (f : OutboxEvent → OutboxEvent) (id : String) (all rows : List OutboxEvent)
    → ((x : OutboxEvent) → ((f x).id ≡ x.id) × ((f x).payload ≡ x.payload))
    → All (λ e. All (HasPayload e) all) rows
    → All (λ e. All (HasPayload e) all) (update_event f id rows)
unfolding update_event
keyed-update f id all [] same h = tt
keyed-update f id all (x ∷ rows) same h = elim (Bool-cases (str_eq x.id id)) [
  | inl c ↦
      rw (c, update_event)
        (
          All-map (HasPayload x) (HasPayload (f x)) all
              (λ g p i. p (i ∙ (same x).0) ∙ sym (same x).1) h.0,
          keyed-update f id all rows same h.1,
        )
  | inr c ↦ rw (c, update_event) (h.0, keyed-update f id all rows same h.1)
]

-- That ids decide payloads is kept too.
pub updated_keyed :
    (f : OutboxEvent → OutboxEvent) (id : String) (rows : List OutboxEvent)
    → ((x : OutboxEvent) → ((f x).id ≡ x.id) × ((f x).payload ≡ x.payload))
    → All (λ e. All (HasPayload e) rows) rows
    → All (λ e. All (HasPayload e) (update_event f id rows)) (update_event f id rows)
updated_keyed f id rows same h =
    All-map (λ e. All (HasPayload e) rows) (λ e. All (HasPayload e) (update_event f id rows))
      (update_event f id rows) (λ e p. All-HasPayload-update f id e rows same p)
      (keyed-update f id rows rows same h)
