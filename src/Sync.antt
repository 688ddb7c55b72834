-- ===== src/Sync.antt =====
-- internal/sync and the handler of GET /sync: a device reads the events after the last one that it has,
-- and keeps a cursor for each device. The text of a query parameter as a number is a parameter.
pub mod Complete
use krampus.Prelude.{
  ℕ, zero, suc, String, Bool, true, false, ◌&&◌, ◌||◌, Option, none, some, List, [], ◌∷◌,
  if◌then◌else◌, ltb, str_eq, take, filter,
}
use krampus.Prelude.Paging.{rows_after}
use krampus.Domain.Errors.{Error, Result, ok, err}
use krampus.Storage.Fault.{Fault, exec, query}

-- `Event`
pub record SyncEvent : Type 0 where
  pub id : ℕ
  pub aggregate_id : String
  pub aggregate_type : String
  pub event_type : String
  pub payload : String
  pub created_at : ℕ

abbrev pub by_id : SyncEvent → ℕ
by_id e = e.id

-- `GetEventsAfter`
unfoldable pub get_events_after : Fault → ℕ → ℕ → List SyncEvent → Result (List SyncEvent)
unfolding rows_after
get_events_after fault last limit rows = query fault (take limit (rows_after by_id last rows))

-- What the handler answers with.
pub data Answer : Type 0 where
  events : List SyncEvent → Answer
  sync_failed : Answer

unfoldable answer : Result (List SyncEvent) → Answer
answer (ok found) = events found
answer (err x) = sync_failed

-- the limit of `handleSync`: `some n` for the text of a natural number, `none` for any other text, of
-- which `strconv.Atoi` makes a number up to 0 or the largest one
unfoldable pub limit_of : Option ℕ → ℕ
limit_of none = 100
limit_of (some n) = if ltb n 1 || ltb 500 n then 100 else n

-- `handleSync`, of the numbers that the two query parameters hold
unfoldable pub handle_sync : Fault → ℕ → Option ℕ → List SyncEvent → Answer
unfolding get_events_after limit_of answer
handle_sync fault last limit rows = answer (get_events_after fault last (limit_of limit) rows)

-- A row of sync_state.
pub record SyncState : Type 0 where
  pub user_id : String
  pub device_id : String
  pub last_event_sequence : ℕ

-- `UpdateCursor`
unfoldable pub upsert_cursor : SyncState → List SyncState → List SyncState
upsert_cursor s [] = s ∷ []
upsert_cursor s (t ∷ rows) =
    let rest = upsert_cursor s rows in
    if str_eq t.user_id s.user_id && str_eq t.device_id s.device_id then s ∷ rows else t ∷ rest

unfoldable pub update_cursor :
    Fault → SyncState → List SyncState → Result (Unit {0}) × List SyncState
unfolding upsert_cursor
update_cursor fault s rows = exec fault rows (upsert_cursor s rows)
