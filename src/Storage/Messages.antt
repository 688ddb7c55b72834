-- ===== src/Storage/Messages.antt =====
-- The messages table (internal/message/storage/psqlStorage.go, sql/queries/messages.sql) and the
-- idempotency keys (idempotencyRepository.go).
use krampus.Prelude.{ℕ, String, Option, none, some, List, [], ◌∷◌, ◌++◌, if◌then◌else◌, str_eq}
use krampus.Prelude.Int.{ℤ, pos}
use krampus.Prelude.Dict.{Dict, lookup, insert}
use krampus.Domain.Errors.{plain, Result, ok, err}
use krampus.Domain.Message.{GoLib, Message, no_metadata}
use krampus.Storage.Fault.{Fault, exec, query}

-- what SaveMessage writes
pub record MessageRow : Type 0 where
  pub id : String
  pub type : String
  pub user_id : String
  pub room_id : String
  pub timestamp : ℤ
  pub payload : String
  pub signature : String
  pub created_at : ℕ

unfoldable pub find_message : String → List MessageRow → Option MessageRow
find_message id [] = none
find_message id (r ∷ rows) =
    let rest = find_message id rows in if str_eq r.id id then some r else rest

abbrev pub message_row : GoLib → ℕ → Message → MessageRow
message_row lib now m = record {
  id = m.id;
  type = m.type;
  user_id = m.user_id;
  room_id = m.room_id;
  timestamp = m.timestamp;
  payload = lib.jsonb m.payload;
  signature = m.signature;
  created_at = now;
}

-- `SaveMessage` at the time `now`; the id is the primary key
unfoldable pub save_message :
    GoLib → Fault → ℕ → Message → List MessageRow → Result (Unit {0}) × List MessageRow
unfolding find_message
save_message lib fault now m rows = elim (find_message m.id rows) [
  | some r ↦ (err (plain "duplicate key value violates unique constraint"), rows)
  | none ↦ exec fault rows (rows ++ message_row lib now m ∷ [])
]

-- the message that `GetMessage` builds of a row: the time is that of the row's creation, and neither
-- the version nor the metadata comes back
abbrev pub restored : MessageRow → Message
restored r = record {
  id = r.id;
  type = r.type;
  user_id = r.user_id;
  room_id = r.room_id;
  timestamp = pos r.created_at;
  version = pos 0;
  payload = r.payload;
  metadata = no_metadata;
  signature = r.signature;
}

-- `GetMessage`
unfoldable pub get_message : Fault → String → List MessageRow → Result Message
unfolding find_message
get_message (some e) id rows = err (plain e)
get_message none id rows = elim (find_message id rows) [
  | none ↦ err (plain "no rows in result set")
  | some r ↦ ok (restored r)
]

-- `IsDuplicate`
unfoldable pub find_key : Fault → String → Dict String → Result (Option String)
find_key fault key keys = query fault (lookup key keys)

-- `Save` of a key: ON CONFLICT DO NOTHING
unfoldable pub save_key : Fault → String → String → Dict String → Result (Unit {0}) × Dict String
save_key fault key id keys = elim (lookup key keys) [
  | some old ↦ exec fault keys keys
  | none ↦ exec fault keys (insert key id keys)
]
