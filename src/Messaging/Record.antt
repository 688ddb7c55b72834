-- ===== src/Messaging/Record.antt =====
-- The writes of `MessageService.Process` (internal/message/service/messageService.go): the message,
-- its idempotency key, its outbox event.
pub mod Outcome
use krampus.Prelude.{
  ℕ, String, Bool, Option, none, some, List, [], ◌∷◌, ◌++◌, if◌then◌else◌, inl, inr,
}
use krampus.Prelude.Dict.{Dict}
use krampus.Domain.Errors.{Error, Result, ok, err, new_error, internal, storage}
use krampus.Domain.Message.{Message, GoLib, CreatedEvent}
use krampus.Storage.Fault.{Fault}
use krampus.Storage.Messages.{MessageRow, save_message, find_key, save_key}
use krampus.Storage.Outbox.{OutboxEvent, save_event}
use krampus.Chat.Users.{UserFaults}
use krampus.Chat.Rooms.{RoomFaults}

pub record Tables : Type 0 where
  pub messages : List MessageRow
  pub keys : Dict String
  pub outbox : List OutboxEvent
  pub has_file_store : Bool
  -- what the goroutines of earlier calls will do: write a message to the file store, and note that a
  -- user was active
  pub files : List Message
  pub activities : List String

-- what one call cannot decide itself: the i-th reading of the clock, the new UUIDs, the failures
pub record Call : Type 0 where
  pub clock : ℕ → ℕ
  pub uuid : String
  pub event_id : String
  pub users : UserFaults
  pub rooms : RoomFaults
  pub find_key_fault : Fault
  pub message_fault : Fault
  pub key_fault : Fault
  pub event_fault : Fault

module _ (lib : GoLib) where
  abbrev pub created_event : Message → CreatedEvent
  created_event msg = record { message_id = msg.id; room_id = msg.room_id; user_id = msg.user_id }

  abbrev pub outbox_event : Call → Message → String → OutboxEvent
  outbox_event env msg payload = record {
    id = env.event_id;
    aggregate_type = "message";
    aggregate_id = msg.id;
    event_type = "message.created";
    payload = payload;
    created_at = env.clock 4;
    published_at = none;
    retry_count = 0;
    last_error = "";
  }

  -- the outbox event
  unfoldable pub announce : Call → Message → Tables → Result (Unit {0}) × Tables
  unfolding save_event
  announce env msg t = elim (lib.marshal_created (created_event msg)) [
    | inl e ↦ (err (new_error internal "failed to marshal outbox payload"), t)
    | inr payload ↦
        let (answer, outbox) = save_event env.event_fault (outbox_event env msg payload) t.outbox in
        elim answer [
          | err e ↦ (err (new_error internal "failed to save outbox event"), t)
          | ok u ↦
              (ok tt, record t { outbox = outbox; activities = t.activities ++ msg.user_id ∷ [] })
        ]
  ]

  -- the idempotency key
  unfoldable pub remember : Call → Message → Tables → Result (Unit {0}) × Tables
  unfolding save_key announce
  remember env msg t =
      let (answer, keys) = save_key env.key_fault msg.id msg.id t.keys in
      elim answer [
        | err e ↦ (err (new_error internal "failed to save idempotency key"), t)
        | ok u ↦ announce env msg (record t { keys = keys })
      ]

  -- the message
  unfoldable pub store : Call → Message → Tables → Result (Unit {0}) × Tables
  unfolding save_message remember
  store env msg t =
      let (answer, messages) = save_message lib env.message_fault (env.clock 3) msg t.messages in
      elim answer [
        | err e ↦ (err (new_error storage "failed to save message"), t)
        | ok u ↦ remember env msg (record t {
          messages = messages;
          files = if t.has_file_store then t.files ++ msg ∷ [] else t.files;
        })
      ]

  -- the test for a duplicate and the writes
  unfoldable pub record_message : Call → Message → Tables → Result (Unit {0}) × Tables
  unfolding find_key store
  record_message env msg t = elim (find_key env.find_key_fault msg.id t.keys) [
    | err e ↦ (err (new_error internal "idempotency check failed"), t)
    | ok found ↦ elim found [ some id ↦ (ok tt, t) | none ↦ store env msg t ]
  ]
