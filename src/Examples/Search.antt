-- ===== src/Examples/Search.antt =====
-- The theorems about the search at concrete inputs.
use krampus.Prelude.{
  ◌++◌, ℕ, String, true, false, none, some, List, [], ◌∷◌, ◌≡◌, ◌⊎◌, refl, In, arith, if◌then◌else◌,
  ◌==◌,
}
use krampus.Prelude.Order.{order_by}
use krampus.Domain.Errors.{Error, Result, ok, err}
use krampus.Events.{DomainEvent, events_after}
use krampus.Events.Replay.{Fetch, rebuild_search_projection}
use krampus.Search.{SearchRow, Filters, build_filters}
use krampus.Search.Numbered.{IsNumbered, wanted, build_filters-IsNumbered}
use krampus.Search.Rebuilt.{
  projections, content_of, contents_after, rebuild_search_projection-contents_after,
}
use krampus.Search.Queue.{QueueItem, Tables, Pass, process_index_queue, select_items}
use krampus.Search.Queue.Handled.{IsHandled, projected, process_index_queue-IsHandled}
use krampus.Search.Queue.Refused.{dead_item, process_index_queue_refused}

abbrev itoa : ℕ → String
itoa n = if n == 1 then "1" else if n == 2 then "2" else "3"

abbrev filters : Filters
filters = record {
  room_id = some "r";
  user_id = none;
  topic_id = none;
  message_type = some "text";
  has_attachments = none;
  has_reactions = none;
  has_poll = none;
  mentions_user_id = none;
  from_timestamp = some 7;
  to_timestamp = none;
}

build_filters-IsNumbered_example :
    IsNumbered itoa
      (wanted filters)
      (build_filters itoa filters (record { conditions = []; args = [] }))
build_filters-IsNumbered_example = build_filters-IsNumbered itoa filters refl refl refl

abbrev event : ℕ → String → String → DomainEvent
event n type payload = record {
  id = n;
  aggregate_id = "m1";
  aggregate_type = "message";
  event_type = type;
  payload = payload;
  event_version = 1;
  sequence = n;
  created_at = 7;
}

abbrev events : List DomainEvent
events =
    event 3 "message_created" "again"
    ∷ event 1 "message_created" "first"
    ∷ event 2 "message_deleted" "{}"
    ∷ []

abbrev parse : String → Result SearchRow
parse payload = ok (record { message_id = "m1"; room_id = "r"; user_id = "u"; content = payload })

abbrev calm : Fetch
calm = record { query_fault = none; scan_fault = λ j. none }

abbrev old : List SearchRow
old = record { message_id = "m9"; room_id = "r"; user_id = "u"; content = "stale" } ∷ []

rebuild_search_projection-contents_after_example :
    (after : List SearchRow) × (rebuild_search_projection
        (projections parse)
        none
        (λ v. [])
        (λ i. calm)
        events
        4
        old
      ≡ some (ok tt, after))
    × (content_of "m1" after ≡ contents_after parse "m1" (events_after 0 events) none)
unfolding events_after
rebuild_search_projection-contents_after_example =
    rebuild_search_projection-contents_after parse "m1" events (λ i. calm) 4 old
      ((omega arith, (omega arith, tt)), ((omega arith, tt), (tt, tt)))
      ((_, refl), ((_, refl), ((_, refl), tt))) (λ i. refl) (λ i j. refl) (omega arith)

abbrev item : ℕ → String → QueueItem
item n operation = record {
  id = n;
  entity_type = "message";
  entity_id = "m1";
  operation = operation;
  processed = false;
}

abbrev tables : List QueueItem → Tables
tables queue = record { queue = queue; projection = old; dead = [] }

abbrev quiet : Pass
quiet = record {
  begin_fault = none;
  select_fault = none;
  index_fault = λ i. none;
  dlq_fault = λ i. none;
  mark_fault = λ i. none;
  commit_fault = none;
}

abbrev two_items : Tables
two_items = tables (item 2 "delete" ∷ item 1 "index" ∷ [])

process_index_queue-IsHandled_example :
    (given rest : List QueueItem) × ((given ≡ [])
      ⊎ (select_items none (λ i. false) two_items.queue ≡ ok (given ++ rest)))
    × ((process_index_queue (λ id. true) quiet (λ i. false) two_items).1.projection
        ≡ projected (λ id. true) quiet given two_items.projection)
    × ((i : QueueItem)
        → In i (process_index_queue (λ id. true) quiet (λ i. false) two_items).1.queue
        → In i two_items.queue ⊎ IsHandled (λ id. true) quiet i.id given two_items.projection)
    × ((process_index_queue (λ id. true) quiet (λ i. false) two_items).0 ≡ ok tt
        → select_items none (λ i. false) two_items.queue ≡ ok given)
    × ((x : Error)
        → (process_index_queue (λ id. true) quiet (λ i. false) two_items).0 ≡ err x
        → (process_index_queue (λ id. true) quiet (λ i. false) two_items).1.queue ≡ two_items.queue)
process_index_queue-IsHandled_example =
    process_index_queue-IsHandled (λ id. true) quiet (λ i. false) two_items

abbrev stuck : Tables
stuck = tables (item 2 "index" ∷ item 1 "index" ∷ [])

process_index_queue_refused_example :
    ((process_index_queue (λ id. true) quiet (λ i. false) stuck).0 ≡ ok tt)
    × ((process_index_queue (λ id. true) quiet (λ i. false) stuck).1.queue ≡ stuck.queue)
    × ((process_index_queue (λ id. true) quiet (λ i. false) stuck).1.projection ≡ stuck.projection)
    × ((process_index_queue (λ id. true) quiet (λ i. false) stuck).1.dead
        ≡ dead_item quiet (item 1 "index") ∷ dead_item quiet (item 2 "index") ∷ [])
    × (select_items none
          (λ i. false)
          (process_index_queue (λ id. true) quiet (λ i. false) stuck).1.queue
        ≡ ok (item 1 "index" ∷ item 2 "index" ∷ []))
unfolding select_items order_by
process_index_queue_refused_example =
    process_index_queue_refused (λ id. true) quiet (λ i. false) stuck
      (item 1 "index" ∷ item 2 "index" ∷ []) refl refl (λ i. refl) refl
      ((refl, refl, refl), ((refl, refl, refl), tt))
