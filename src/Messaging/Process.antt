-- ===== src/Messaging/Process.antt =====
-- `MessageService.Process` of internal/message/service/messageService.go: the checks, in their order.
pub mod Ends
pub mod Recorded
pub mod Again
use krampus.Prelude.{
  ℕ, String, Bool, true, false, Option, none, some, List, [], ◌∷◌, ◌++◌, if◌then◌else◌, inl, inr,
}
use krampus.Prelude.Dict.{Dict}
use krampus.Prelude.Int.{is_zero}
use krampus.Domain.Errors.{
  Error, Result, ok, err, new_error, error_text, invalid_message, user_not_found, room_not_found,
  forbidden, internal, storage,
}
use krampus.Domain.Message.{Message, GoLib, CreatedEvent, validate, set_timestamp}
use krampus.Domain.Room.{User, Room}
use krampus.Storage.Fault.{Fault}
use krampus.Storage.Messages.{MessageRow, save_message, find_key, save_key}
use krampus.Storage.Outbox.{OutboxEvent, save_event}
use krampus.Chat.Access.{can_send_message}
use krampus.Chat.Users.{UserWorld, UserFaults, get_user}
use krampus.Chat.Rooms.{RoomWorld, RoomFaults, get_room}
use krampus.Messaging.Record.{Tables, Call, record_message}
use krampus.Messaging.Limits.{RateLib, RateLimiter, check}

pub record Service (rate : RateLib) : Type 0 where
  pub limiter : RateLimiter rate
  pub users : UserWorld
  pub rooms : RoomWorld
  pub tables : Tables

-- `if msg.Timestamp == 0 { msg.SetTimestamp() }`
unfoldable pub stamped : Call → Message → Message
unfolding set_timestamp
stamped env msg = if is_zero msg.timestamp then set_timestamp (env.clock 0) env.uuid msg else msg

module _ (lib : GoLib) {rate : RateLib} where
  -- the room and the permission to send
  unfoldable pub check_room :
      Call → Message → User → Service rate → Result (Unit {0}) × Service rate
  unfolding get_room can_send_message
  check_room env msg user w =
      let (answer, rooms) = get_room env.rooms msg.room_id w.rooms in
      let w' = record w { rooms = rooms } in
      elim answer [
        | err e ↦ (err (new_error room_not_found "room not found"), w')
        | ok room ↦ (
          if can_send_message room (lib.format_int user.id) msg.type
              then ok tt
              else err (new_error forbidden "no permission to send"),
          w',
        )
      ]

  -- the user
  unfoldable pub check_user : Call → Message → Service rate → Result (Unit {0}) × Service rate
  unfolding get_user check_room
  check_user env msg w =
      let (answer, users) = get_user lib env.users msg.user_id w.users in
      let w' = record w { users = users } in
      elim answer [
        | err e ↦ (err (new_error user_not_found "user client not found"), w')
        | ok user ↦ check_room env msg user w'
      ]

  -- the rate
  unfoldable pub check_rate : Call → Message → Service rate → Result (Unit {0}) × Service rate
  unfolding check check_user
  check_rate env msg w =
      let (answer, limiter) = check rate (env.clock 2) msg.user_id msg.type w.limiter in
      let w' = record w { limiter = limiter } in
      elim answer [ err e ↦ (err e, w') | ok u ↦ check_user env msg w' ]

  -- everything that `Process` asks before it looks for a duplicate
  unfoldable pub check_message : Call → Message → Service rate → Result (Unit {0}) × Service rate
  unfolding validate check_rate error_text
  check_message env msg w = elim (validate (env.clock 1) msg) [
    | some e ↦ (err (new_error invalid_message (error_text e)), w)
    | none ↦ check_rate env msg w
  ]

  -- `Process`
  unfoldable pub process : Call → Message → Service rate → Result (Unit {0}) × Service rate
  unfolding stamped check_message record_message
  process env msg w =
      let m = stamped env msg in
      let (answer, w') = check_message env m w in
      let (result, tables) = record_message lib env m w'.tables in
      elim answer [ err e ↦ (err e, w') | ok u ↦ (result, record w' { tables = tables }) ]
