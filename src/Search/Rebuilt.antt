-- ===== src/Search/Rebuilt.antt =====
-- What the projection holds of a message after its events, and after a rebuild.
use krampus.Prelude.{
  ℕ, ◌<◌, String, Option, none, some, List, [], ◌∷◌, ◌≡◌, refl, ap, ◌∙◌, inl, inr, All, All-filter,
  length, if◌then◌else◌, str_eq, eq_iff, Bool-cases, arith,
}
use krampus.Prelude.Order.{HasDistinctKeys, All-order_by, is_above_key}
use krampus.Domain.Errors.{Result, ok, err}
use krampus.Events.{DomainEvent, Handler, by_sequence, dispatch, events_after}
use krampus.Events.Replay.{Fetch, rebuild_search_projection}
use krampus.Events.Replay.Refines.{dispatch_all, replay-dispatch_all}
use krampus.Search.{SearchRow, upsert_row, index_message, delete_message, projection_handle}

-- The content that the projection has of a message.
abbrev pub content_of : String → List SearchRow → Option String
content_of id [] = none
content_of id (r ∷ rows) =
    let rest = content_of id rows in if str_eq r.message_id id then some r.content else rest

content_of-upsert_row :
    (id : String) (r : SearchRow) (rows : List SearchRow)
    → content_of id (upsert_row r rows)
      ≡ (if str_eq r.message_id id then some r.content else content_of id rows)
unfolding upsert_row
content_of-upsert_row id r [] = ground arith
content_of-upsert_row id r (s ∷ rows) = ground (
  arith,
  eq_iff s.message_id r.message_id,
  eq_iff s.message_id id,
  eq_iff r.message_id id,
  content_of-upsert_row id r rows,
)

content_of-delete_message :
    (id other : String) (rows : List SearchRow)
    → content_of id (delete_message none other rows).1
      ≡ (if str_eq other id then none else content_of id rows)
unfolding delete_message
content_of-delete_message id other [] = ground arith
content_of-delete_message id other (r ∷ rows) = ground (
  arith,
  eq_iff r.message_id other,
  eq_iff r.message_id id,
  eq_iff other id,
  content_of-delete_message id other rows,
)

-- One handler that accepts an event leaves the rest to the others.
dispatch_all-handled :
    {W : Type 0} (h : Handler W) (e : DomainEvent) (events : List DomainEvent) (w : W)
    → (h e w).0 ≡ ok tt
    → dispatch_all (h ∷ []) (e ∷ events) w ≡ dispatch_all (h ∷ []) events (h e w).1
unfolding dispatch_all dispatch
dispatch_all-handled h e events w p = ground (arith, p)

module _ (parse : String → Result SearchRow) where
  -- What an event says of the content of a message.
  abbrev pub content_after : String → DomainEvent → Option String → Option String
  content_after id e old =
      if str_eq e.event_type "message_created"
      then elim (parse e.payload) [
        | err x ↦ old
        | ok r ↦ if str_eq r.message_id id then some r.content else old
      ]
      else if str_eq e.event_type "message_deleted"
      then (if str_eq e.aggregate_id id then none else old)
      else old

  abbrev pub contents_after : String → List DomainEvent → Option String → Option String
  contents_after id [] old = old
  contents_after id (e ∷ events) old = contents_after id events (content_after id e old)

  -- The payload of a creation can be read.
  abbrev pub IsReadable : DomainEvent → Type 0
  IsReadable e = (r : SearchRow) × (parse e.payload ≡ ok r)

  projection_handle-content_after :
      (id : String) (e : DomainEvent) (rows : List SearchRow)
      → IsReadable e
      → ((projection_handle parse (λ e. none) e rows).0 ≡ ok tt)
        × (content_of id (projection_handle parse (λ e. none) e rows).1
            ≡ content_after id e (content_of id rows))
  unfolding projection_handle index_message
  projection_handle-content_after id e rows p =
      elim (Bool-cases (str_eq e.event_type "message_created")) [
        | inl c ↦
            simp (c, p.1, projection_handle, index_message)
              (refl, content_of-upsert_row id p.0 rows)
        | inr c ↦ elim (Bool-cases (str_eq e.event_type "message_deleted")) [
          | inl d ↦
              simp (c, d, projection_handle)
                (refl, content_of-delete_message id e.aggregate_id rows)
          | inr d ↦ simp (c, d, projection_handle) (refl, refl)
        ]
      ]

  abbrev pub projections : List (Handler (List SearchRow))
  projections = projection_handle parse (λ e. none) ∷ []

  dispatch_all-contents_after :
      (id : String) (events : List DomainEvent) (rows : List SearchRow)
      → All IsReadable events
      → ((dispatch_all projections events rows).0 ≡ ok tt)
        × (content_of id (dispatch_all projections events rows).1
            ≡ contents_after id events (content_of id rows))
  unfolding dispatch_all
  dispatch_all-contents_after id [] rows p = (refl, refl)
  dispatch_all-contents_after id (e ∷ events) rows p =
      let handle = projection_handle parse (λ e. none) in
      let one = projection_handle-content_after id e rows p.0 in
      let rest = dispatch_all-contents_after id events (handle e rows).1 p.1 in
      let first = dispatch_all-handled handle e events rows one.0 in
      (
        ap (λ r. r.0) first ∙ rest.0,
        ap (λ r. content_of id r.1) first ∙ (rest.1 ∙ ap (contents_after id events) one.1),
      )

  -- Of events with distinct sequence numbers whose payloads can be read, with statements that do not
  -- fail and more fuel than there are events above 0, `RebuildSearchProjection` succeeds whatever the
  -- projection held before, and the content that it then has of a message is the one that the events
  -- above 0 say in the order of their sequence numbers: that of the last creation of the message with
  -- no deletion of it after, and none when there is no such creation.
  pub rebuild_search_projection-contents_after :
      (id : String) (rows : List DomainEvent) (fetches : ℕ → Fetch) (fuel : ℕ)
      (before : List SearchRow)
      → HasDistinctKeys by_sequence rows
      → All IsReadable rows
      → ((i : ℕ) → (fetches i).query_fault ≡ none)
      → ((i j : ℕ) → (fetches i).scan_fault j ≡ none)
      → length (events_after 0 rows) < fuel
      → (after : List SearchRow) × (rebuild_search_projection projections none
            (λ v. [])
            fetches
            rows
            fuel
            before
          ≡ some (ok tt, after))
        × (content_of id after ≡ contents_after id (events_after 0 rows) none)
  unfolding rebuild_search_projection events_after
  rebuild_search_projection-contents_after id rows fetches fuel before d p q r h =
      let readable : All IsReadable (events_after 0 rows) =
        All-order_by by_sequence IsReadable _
          (All-filter IsReadable (is_above_key by_sequence 0) rows p) in
      let held = dispatch_all-contents_after id (events_after 0 rows) [] readable in
      (
        (dispatch_all projections (events_after 0 rows) []).1,
        replay-dispatch_all projections rows d fetches 999 fuel 0 [] q r h
            ∙ ap (λ a. some (a, (dispatch_all projections (events_after 0 rows) []).1)) held.0,
        held.1,
      )
