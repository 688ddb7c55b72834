-- ===== src/Storage/Outbox.antt =====
-- The outbox table of internal/message/storage/OutboxRepo.go.
use krampus.Prelude.{
  ℕ, ◌+◌, String, Bool, true, false, Option, none, some, List, [], ◌∷◌, ◌++◌, if◌then◌else◌, str_eq,
  leb, filter, take,
}
use krampus.Domain.Errors.{Result}
use krampus.Storage.Fault.{Fault, exec, query}

-- `OutboxEvent`
pub record OutboxEvent : Type 0 where
  pub id : String
  pub aggregate_type : String
  pub aggregate_id : String
  pub event_type : String
  pub payload : String
  pub created_at : ℕ
  pub published_at : Option ℕ
  pub retry_count : ℕ
  pub last_error : String

-- `SaveEvent`; the id is a new UUID
unfoldable pub save_event :
    Fault → OutboxEvent → List OutboxEvent → Result (Unit {0}) × List OutboxEvent
save_event fault e rows = exec fault rows (rows ++ e ∷ [])

abbrev pub is_unpublished : OutboxEvent → Bool
is_unpublished e = elim e.published_at [ none ↦ true | some t ↦ false ]

-- ORDER BY created_at ASC
unfoldable pub insert_by_creation : OutboxEvent → List OutboxEvent → List OutboxEvent
insert_by_creation e [] = e ∷ []
insert_by_creation e (f ∷ rows) =
    let rest = insert_by_creation e rows in
    if leb e.created_at f.created_at then e ∷ f ∷ rows else f ∷ rest

unfoldable pub order_by_creation : List OutboxEvent → List OutboxEvent
order_by_creation [] = []
order_by_creation (e ∷ rows) = insert_by_creation e (order_by_creation rows)

-- `GetUnpublishedEvents`
unfoldable pub get_unpublished_events : Fault → ℕ → List OutboxEvent → Result (List OutboxEvent)
unfolding order_by_creation insert_by_creation
get_unpublished_events fault limit rows =
    query fault (take limit (order_by_creation (filter is_unpublished rows)))

-- an UPDATE of the rows with an id
unfoldable pub update_event :
    (OutboxEvent → OutboxEvent) → String → List OutboxEvent → List OutboxEvent
update_event f id [] = []
update_event f id (e ∷ rows) =
    let rest = update_event f id rows in if str_eq e.id id then f e ∷ rest else e ∷ rest

abbrev pub with_publication : ℕ → OutboxEvent → OutboxEvent
with_publication now e = record e { published_at = some now }

abbrev pub with_failure : String → OutboxEvent → OutboxEvent
with_failure text e = record e { retry_count = e.retry_count + 1; last_error = text }

-- `MarkPublished`
unfoldable pub mark_published :
    Fault → ℕ → String → List OutboxEvent → Result (Unit {0}) × List OutboxEvent
unfolding update_event
mark_published fault now id rows = exec fault rows (update_event (with_publication now) id rows)

-- `IncrementRetry`
unfoldable pub increment_retry :
    Fault → String → String → List OutboxEvent → Result (Unit {0}) × List OutboxEvent
unfolding update_event
increment_retry fault id text rows = exec fault rows (update_event (with_failure text) id rows)
