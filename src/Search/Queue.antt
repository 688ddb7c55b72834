-- ===== src/Search/Queue.antt =====
-- internal/search/workers/indexWorker.go: one pass of the worker over search_index_queue. The rows that
-- another transaction holds are a parameter, as is which messages exist.
pub mod Handled
pub mod Refused
use krampus.Prelude.{
  ℕ, String, Bool, true, false, not, Option, none, some, List, [], ◌∷◌, ◌++◌, if◌then◌else◌, str_eq,
  ◌==◌, ◌&&◌, filter, take, map,
}
use krampus.Prelude.Order.{order_by}
use krampus.Domain.Errors.{Error, Result, ok, err, plain, error_text}
use krampus.Storage.Fault.{Fault, exec, query}
use krampus.Search.{SearchRow, delete_message, reindex_entity}

-- `QueueItem` and its column processed
pub record QueueItem : Type 0 where
  pub id : ℕ
  pub entity_type : String
  pub entity_id : String
  pub operation : String
  pub processed : Bool

-- A row of search_index_dlq.
pub record DeadItem : Type 0 where
  pub entity_type : String
  pub entity_id : String
  pub operation : String
  pub error : String

-- The tables of the worker.
pub record Tables : Type 0 where
  pub queue : List QueueItem
  pub projection : List SearchRow
  pub dead : List DeadItem

-- How the statements of one pass turn out; those of an item by its id.
pub record Pass : Type 0 where
  pub begin_fault : Fault
  pub select_fault : Fault
  pub index_fault : ℕ → Fault
  pub dlq_fault : ℕ → Fault
  pub mark_fault : ℕ → Fault
  pub commit_fault : Fault

-- the SELECT of `process`, with its scan
unfoldable pub select_items : Fault → (ℕ → Bool) → List QueueItem → Result (List QueueItem)
select_items fault locked queue =
    query fault
      (take 100 (order_by (λ i. i.id) (filter (λ i. not i.processed && not (locked i.id)) queue)))

-- UPDATE search_index_queue SET processed = TRUE
unfoldable pub mark_processed : ℕ → List QueueItem → List QueueItem
mark_processed id queue = map (λ i. if i.id == id then record i { processed = true } else i) queue

-- `moveToDLQ`
unfoldable pub move_item_to_dlq : Fault → QueueItem → Error → List DeadItem → List DeadItem
move_item_to_dlq fault i x dead =
    (exec fault dead (
      dead
      ++ record {
        entity_type = i.entity_type;
        entity_id = i.entity_id;
        operation = i.operation;
        error = error_text x;
      }
        ∷ [])).1

-- the end of `process`: the marks stand in its transaction, the projection and the dead letters do not
unfoldable pub end_pass :
    Fault → List QueueItem → Result (Unit {0}) × Tables → Result (Unit {0}) × Tables
end_pass fault queue (err x, t) = (err x, record t { queue = queue })
end_pass (some text) queue (ok u, t) = (err (plain text), record t { queue = queue })
end_pass none queue (ok u, t) = (ok tt, t)

module _ (exists : String → Bool) where
  -- `handleItem`
  unfoldable pub handle_item :
      Fault → QueueItem → List SearchRow → Result (Unit {0}) × List SearchRow
  unfolding delete_message reindex_entity
  handle_item fault i rows =
      if str_eq i.operation "delete"
      then delete_message fault i.entity_id rows
      else if str_eq i.operation "index"
      then reindex_entity fault exists i.entity_type i.entity_id rows
      else (ok tt, rows)

  -- the loop over the items; an item that fails goes to the dead letters and the loop goes on
  unfoldable pub handle_items : Pass → List QueueItem → Tables → Result (Unit {0}) × Tables
  unfolding handle_item move_item_to_dlq mark_processed
  handle_items pass [] t = (ok tt, t)
  handle_items pass (i ∷ items) t = elim (handle_item (pass.index_fault i.id) i t.projection).0 [
    | err x ↦ handle_items pass items (record t {
      projection = (handle_item (pass.index_fault i.id) i t.projection).1;
      dead = move_item_to_dlq (pass.dlq_fault i.id) i x t.dead;
    })
    | ok u ↦ elim (pass.mark_fault i.id) [
      | some text ↦ (
        err (plain text),
        record t { projection = (handle_item (pass.index_fault i.id) i t.projection).1 },
      )
      | none ↦ handle_items pass items (record t {
        projection = (handle_item (pass.index_fault i.id) i t.projection).1;
        queue = mark_processed i.id t.queue;
      })
    ]
  ]

  -- `process`
  unfoldable pub process_index_queue : Pass → (ℕ → Bool) → Tables → Result (Unit {0}) × Tables
  unfolding select_items handle_items end_pass
  process_index_queue pass locked t = elim pass.begin_fault [
    | some text ↦ (err (plain text), t)
    | none ↦ elim (select_items pass.select_fault locked t.queue) [
      | err x ↦ (err x, t)
      | ok items ↦ end_pass pass.commit_fault t.queue (handle_items pass items t)
    ]
  ]
