-- ===== src/Events.antt =====
-- internal/events: the event record, the bus, the projector, and the rows a reader of the events table
-- selects. A projection is a parameter: it turns what the projections keep into its next value and
-- answers with an error or without.
pub mod Paging
pub mod Consumer
pub mod Replay
pub mod Leases
pub mod Snapshots
use krampus.Prelude.{ℕ, String, Option, none, some, List, [], ◌∷◌, ◌++◌, filter, take}
use krampus.Prelude.Dict.{Dict, lookup, insert}
use krampus.Prelude.Order.{order_by, is_above_key}
use krampus.Domain.Errors.{Result, ok, err}
use krampus.Storage.Fault.{Fault, query}

-- `Event` of domain/event.go
pub record DomainEvent : Type 0 where
  pub id : ℕ
  pub aggregate_id : String
  pub aggregate_type : String
  pub event_type : String
  pub payload : String
  pub event_version : ℕ
  pub sequence : ℕ
  pub created_at : ℕ

-- `Handler` and `Projection`: `Handle` on what the handlers keep
abbrev pub Handler : Type 0 → Type 0
Handler W = DomainEvent → W → Result (Unit {0}) × W

module _ {W : Type 0} where
  -- `Projector.Dispatch`, and the loop of `Bus.Publish`
  unfoldable pub dispatch : List (Handler W) → DomainEvent → W → Result (Unit {0}) × W
  dispatch [] e w = (ok tt, w)
  dispatch (h ∷ handlers) e w = elim (h e w).0 [
    | err x ↦ (err x, (h e w).1)
    | ok u ↦ dispatch handlers e (h e w).1
  ]

  -- `b.handlers[eventType]`: a missing key is an empty slice
  unfoldable pub handlers_of : Dict (List (Handler W)) → String → List (Handler W)
  handlers_of bus t = elim (lookup t bus) [ none ↦ [] | some handlers ↦ handlers ]

  -- `Bus.Subscribe`
  unfoldable pub subscribe : String → Handler W → Dict (List (Handler W)) → Dict (List (Handler W))
  unfolding handlers_of
  subscribe t h bus = insert t (handlers_of bus t ++ h ∷ []) bus

  -- `Bus.Publish`
  unfoldable pub publish : Dict (List (Handler W)) → DomainEvent → W → Result (Unit {0}) × W
  unfolding handlers_of dispatch
  publish bus e w = dispatch (handlers_of bus e.event_type) e w

abbrev pub by_sequence : DomainEvent → ℕ
by_sequence e = e.sequence

-- WHERE sequence > $1 ORDER BY sequence ASC
unfoldable pub events_after : ℕ → List DomainEvent → List DomainEvent
unfolding order_by
events_after last rows = order_by by_sequence (filter (is_above_key by_sequence last) rows)

-- the SELECT of `Consumer.process` and of `Replay`
unfoldable pub select_events : Fault → ℕ → ℕ → List DomainEvent → Result (List DomainEvent)
unfolding events_after
select_events fault last limit rows = query fault (take limit (events_after last rows))
