-- ===== src/Search.antt =====
-- internal/search: the projection of messages that is searched, its two handlers of events, the worker
-- of the index queue, and the builder of search conditions. JSON and the text of a number are
-- parameters.
pub mod Rebuilt
pub mod Numbered
pub mod Queue
use Prim.Native.String.{◌++◌ as text_append}
use krampus.Prelude.{
  ℕ, zero, suc, ◌+◌, String, Bool, true, false, not, Option, none, some, List, [], ◌∷◌, ◌++◌,
  if◌then◌else◌, str_eq, ◌==◌, filter, take, map,
}
use krampus.Prelude.Order.{order_by}
use krampus.Domain.Errors.{Error, Result, ok, err, plain, error_text}
use krampus.Storage.Fault.{Fault, exec, query}
use krampus.Events.{DomainEvent, Handler}

-- A row of message_search_projection; the search vector is made of the content.
pub record SearchRow : Type 0 where
  pub message_id : String
  pub room_id : String
  pub user_id : String
  pub content : String

-- INSERT … ON CONFLICT(message_id) DO UPDATE SET content
unfoldable pub upsert_row : SearchRow → List SearchRow → List SearchRow
upsert_row r [] = r ∷ []
upsert_row r (s ∷ rows) =
    let rest = upsert_row r rows in
    if str_eq s.message_id r.message_id then record s { content = r.content } ∷ rows else s ∷ rest

-- `IndexMessage`
unfoldable pub index_message :
    Fault → SearchRow → List SearchRow → Result (Unit {0}) × List SearchRow
unfolding upsert_row
index_message fault r rows = exec fault rows (upsert_row r rows)

-- `DeleteMessage`
unfoldable pub delete_message : Fault → String → List SearchRow → Result (Unit {0}) × List SearchRow
delete_message fault id rows = exec fault rows (filter (λ r. not (str_eq r.message_id id)) rows)

-- `reindexMessage`: the row it inserts has no room_id, user_id and created_at, which must not be null, so
-- PostgreSQL refuses it before it looks for a conflict; a message that is not there inserts nothing
unfoldable pub reindex_message :
    Fault → (String → Bool) → String → List SearchRow → Result (Unit {0}) × List SearchRow
reindex_message (some text) exists id rows = (err (plain text), rows)
reindex_message none exists id rows =
    if exists id
    then (err (plain "null value violates not-null constraint"), rows)
    else (ok tt, rows)

-- `ReindexEntity`
unfoldable pub reindex_entity :
    Fault → (String → Bool) → String → String → List SearchRow → Result (Unit {0}) × List SearchRow
unfolding reindex_message
reindex_entity fault exists type id rows =
    if str_eq type "message" then reindex_message fault exists id rows else (ok tt, rows)

-- `Handle` of message_projection.go; `parse` is `json.Unmarshal` into `MessagePayload`
unfoldable pub projection_handle :
    (String → Result SearchRow) → (DomainEvent → Fault) → Handler (List SearchRow)
unfolding index_message delete_message
projection_handle parse fault e rows =
    if str_eq e.event_type "message_created"
    then elim (parse e.payload) [ err x ↦ (err x, rows) | ok r ↦ index_message (fault e) r rows ]
    else if str_eq e.event_type "message_deleted"
    then delete_message (fault e) e.aggregate_id rows
    else (ok tt, rows)

-- `Handle` of consumer.go
unfoldable pub consumer_handle :
    (String → Result SearchRow) → (DomainEvent → Fault) → Handler (List SearchRow)
unfolding index_message
consumer_handle parse fault e rows =
    if str_eq e.event_type "message_created"
    then elim (parse e.payload) [ err x ↦ (err x, rows) | ok r ↦ index_message (fault e) r rows ]
    else (ok tt, rows)

-- `QueryBuilder`; an argument is a text, a truth value or a number
pub data Argument : Type 0 where
  text : String → Argument
  truth : Bool → Argument
  number : ℕ → Argument

pub record QueryBuilder : Type 0 where
  pub conditions : List String
  pub args : List Argument

-- `Add`
unfoldable pub add : String → Argument → QueryBuilder → QueryBuilder
add condition arg b = record {
  conditions = b.conditions ++ condition ∷ [];
  args = b.args ++ arg ∷ [];
}

-- `Filters`; times are Unix times from 1970 on
pub record Filters : Type 0 where
  pub room_id : Option String
  pub user_id : Option String
  pub topic_id : Option String
  pub message_type : Option String
  pub has_attachments : Option Bool
  pub has_reactions : Option Bool
  pub has_poll : Option Bool
  pub mentions_user_id : Option String
  pub from_timestamp : Option ℕ
  pub to_timestamp : Option ℕ

abbrev pub given : {A : Type 0} → (A → Argument) → Option A → Option Argument
given f none = none
given f (some a) = some (f a)

module _ (itoa : ℕ → String) where
  -- one `if` of `BuildFilters` that numbers its argument: the builder and `arg`
  unfoldable pub add_numbered : String → Option Argument → QueryBuilder × ℕ → QueryBuilder × ℕ
  unfolding add
  add_numbered prefix none s = s
  add_numbered prefix (some a) s = (add (text_append prefix (itoa s.1)) a s.0, s.1 + 1)

  -- the `if` of the room, which comes first
  unfoldable pub add_room : Option String → QueryBuilder × ℕ → QueryBuilder × ℕ
  unfolding add
  add_room none s = s
  add_room (some r) s = (add "room_id = $1" (text r) s.0, s.1 + 1)

  -- the `if` of the reactions: an argument without a number
  unfoldable pub add_reactions : Option Bool → QueryBuilder × ℕ → QueryBuilder × ℕ
  unfolding add
  add_reactions none s = s
  add_reactions (some b) s = (add "reaction_count > 0" (truth true) s.0, s.1)

  -- `BuildFilters`
  unfoldable pub build_filters : Filters → QueryBuilder → QueryBuilder × ℕ
  unfolding add_room add_numbered add_reactions
  build_filters f b =
      let room = add_room f.room_id (b, 1) in
      let user = add_numbered "user_id = $" (given text f.user_id) room in
      let topic = add_numbered "topic_id = $" (given text f.topic_id) user in
      let type = add_numbered "type = $" (given text f.message_type) topic in
      let files = add_numbered "has_attachments = $" (given truth f.has_attachments) type in
      let reactions = add_reactions f.has_reactions files in
      let poll = add_numbered "has_poll = $" (given truth f.has_poll) reactions in
      let from = add_numbered "timestamp >= $" (given number f.from_timestamp) poll in
      add_numbered "timestamp <= $" (given number f.to_timestamp) from
