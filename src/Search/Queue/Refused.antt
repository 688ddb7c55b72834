-- ===== src/Search/Queue/Refused.antt =====
-- What the index worker does with the items that its indexer refuses.
use mathlib.Core.List.{append_assoc, append-nil}
use krampus.Prelude.{
  ℕ, String, Bool, true, none, some, List, [], ◌∷◌, ◌≡◌, ◌∙◌, refl, sym, ap, map, ◌++◌, All,
}
use krampus.Domain.Errors.{Result, ok, err, plain, error_text}
use krampus.Storage.Fault.{Fault}
use krampus.Search.{SearchRow, reindex_entity, reindex_message}
use krampus.Search.Queue.{
  QueueItem, DeadItem, Tables, Pass, move_item_to_dlq, select_items, handle_item, handle_items,
  end_pass, process_index_queue,
}

-- What the indexer answers for a message that exists: the error of the database, or that of the columns
-- that the statement leaves out.
abbrev pub refusal : Fault → String
refusal (some text) = text
refusal none = "null value violates not-null constraint"

-- The dead letter of a refused item.
abbrev pub dead_item : Pass → QueueItem → DeadItem
dead_item pass i = record {
  entity_type = i.entity_type;
  entity_id = i.entity_id;
  operation = i.operation;
  error = refusal (pass.index_fault i.id);
}

end_pass_ok :
    (queue : List QueueItem) (r : Result (Unit {0}) × Tables) (rows : List SearchRow)
    (dead : List DeadItem)
    → (r.0 ≡ ok tt) × (r.1.queue ≡ queue) × (r.1.projection ≡ rows) × (r.1.dead ≡ dead)
    → ((end_pass none queue r).0 ≡ ok tt)
      × ((end_pass none queue r).1.queue ≡ queue)
      × ((end_pass none queue r).1.projection ≡ rows)
      × ((end_pass none queue r).1.dead ≡ dead)
unfolding end_pass
end_pass_ok queue (err x, t) rows dead h = absurd (let z = h.0 in cc)
end_pass_ok queue (ok u, t) rows dead h = h

module _ (exists : String → Bool) (pass : Pass) where
  -- The item asks to index a message that exists.
  abbrev pub IsMessageToIndex : QueueItem → Type 0
  IsMessageToIndex i =
      (i.operation ≡ "index") × (i.entity_type ≡ "message") × (exists i.entity_id ≡ true)

  handle_item_refuses :
      (fault : Fault) (i : QueueItem) (rows : List SearchRow)
      → IsMessageToIndex i
      → handle_item exists fault i rows ≡ (err (plain (refusal fault)), rows)
  unfolding handle_item reindex_entity reindex_message
  handle_item_refuses (some text) i rows (o, e, h) =
      simp (o, e, h, handle_item, reindex_entity, reindex_message) refl
  handle_item_refuses none i rows (o, e, h) =
      simp (o, e, h, handle_item, reindex_entity, reindex_message) refl

  handle_items_refused :
      (items : List QueueItem) (t : Tables)
      → All IsMessageToIndex items
      → ((i : ℕ) → pass.dlq_fault i ≡ none)
      → ((handle_items exists pass items t).0 ≡ ok tt)
        × ((handle_items exists pass items t).1.queue ≡ t.queue)
        × ((handle_items exists pass items t).1.projection ≡ t.projection)
        × ((handle_items exists pass items t).1.dead ≡ t.dead ++ map (dead_item pass) items)
  unfolding handle_items move_item_to_dlq error_text
  handle_items_refused [] t p q = (refl, refl, refl, sym (append-nil t.dead))
  handle_items_refused (i ∷ items) t (p, ps) q =
      let rest =
        handle_items_refused items (record t { dead = t.dead ++ dead_item pass i ∷ [] }) ps q in
      simp
        (
          handle_item_refuses (pass.index_fault i.id) i t.projection p,
          q i.id,
          handle_items,
          move_item_to_dlq,
        )
        (rest.0, rest.1, rest.2, rest.3 ∙ append_assoc t.dead (dead_item pass i ∷ []) _)

  -- When no statement but those of the indexer fails and each item that the pass selects asks to index a
  -- message that exists, the pass succeeds but marks no item and leaves the queue and the projection as
  -- they were; it adds to the dead letters, for each item in order, one with its type, its id, its
  -- operation and the error of the indexer; and the same SELECT gives the same items again.
  pub process_index_queue_refused :
      (locked : ℕ → Bool) (t : Tables) (items : List QueueItem)
      → pass.begin_fault ≡ none
      → pass.commit_fault ≡ none
      → ((i : ℕ) → pass.dlq_fault i ≡ none)
      → select_items pass.select_fault locked t.queue ≡ ok items
      → All IsMessageToIndex items
      → ((process_index_queue exists pass locked t).0 ≡ ok tt)
        × ((process_index_queue exists pass locked t).1.queue ≡ t.queue)
        × ((process_index_queue exists pass locked t).1.projection ≡ t.projection)
        × ((process_index_queue exists pass locked t).1.dead ≡ t.dead ++ map (dead_item pass) items)
        × (select_items pass.select_fault locked (process_index_queue exists pass locked t).1.queue
            ≡ ok items)
  unfolding process_index_queue
  process_index_queue_refused locked t items b c q s p =
      let ends =
        end_pass_ok t.queue (handle_items exists pass items t) t.projection _
          (handle_items_refused items t p q) in
      simp (b, c, s, process_index_queue)
        (ends.0, ends.1, ends.2, ends.3, ap (select_items pass.select_fault locked) ends.1 ∙ s)
