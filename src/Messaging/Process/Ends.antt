-- ===== src/Messaging/Process/Ends.antt =====
-- The ends of a call of `Process`.
use krampus.Prelude.{◌≡◌, refl, inl, inr, Option-cases}
use krampus.Domain.Errors.{Result-cases}
use krampus.Domain.Message.{Message, GoLib, validate}
use krampus.Domain.Room.{User}
use krampus.Chat.Users.{get_user}
use krampus.Chat.Rooms.{get_room}
use krampus.Messaging.Limits.{RateLib, check}
use krampus.Messaging.Record.{Call}
use krampus.Messaging.Record.Outcome.{Ends, refused, record_message-Ends}
use krampus.Messaging.Process.{
  Service, stamped, check_room, check_user, check_rate, check_message, process,
}

module _ (lib : GoLib) {rate : RateLib} where
  check_room-tables :
      (env : Call) (msg : Message) (user : User) (w : Service rate)
      → (check_room lib env msg user w).1.tables ≡ w.tables
  unfolding check_room
  check_room-tables env msg user w =
      elim (Result-cases (get_room env.rooms msg.room_id w.rooms).0) [
        | inl (e, h) ↦ rw (h, check_room) refl
        | inr (room, h) ↦ rw (h, check_room) refl
      ]

  check_user-tables :
      (env : Call) (msg : Message) (w : Service rate)
      → (check_user lib env msg w).1.tables ≡ w.tables
  unfolding check_user
  check_user-tables env msg w = elim (Result-cases (get_user lib env.users msg.user_id w.users).0) [
    | inl (e, h) ↦ rw (h, check_user) refl
    | inr (user, h) ↦ rw (h, check_user) (check_room-tables env msg user _)
  ]

  check_rate-tables :
      (env : Call) (msg : Message) (w : Service rate)
      → (check_rate lib env msg w).1.tables ≡ w.tables
  unfolding check_rate
  check_rate-tables env msg w =
      elim (Result-cases (check rate (env.clock 2) msg.user_id msg.type w.limiter).0) [
        | inl (e, h) ↦ rw (h, check_rate) refl
        | inr (user, h) ↦ rw (h, check_rate) (check_user-tables env msg _)
      ]

  pub check_message-tables :
      (env : Call) (msg : Message) (w : Service rate)
      → (check_message lib env msg w).1.tables ≡ w.tables
  unfolding check_message
  check_message-tables env msg w = elim (Option-cases (validate (env.clock 1) msg)) [
    | inl h ↦ rw (h, check_message) (check_rate-tables env msg w)
    | inr (e, h) ↦ rw (h, check_message) refl
  ]

  -- Every call ends in one of five ways, for the message with its id and time set. The message is a
  -- duplicate, and nothing changes. It is refused and nothing is written. Or, if its id is no known
  -- key: the message is stored and the call fails; it is stored with its key and the call fails; it
  -- is stored with its key and its outbox event, and the call succeeds.
  pub process-Ends :
      (env : Call) (msg : Message) (w : Service rate)
      → let r = process lib env msg w in Ends lib env (stamped env msg) w.tables (r.0, r.1.tables)
  unfolding process
  process-Ends env msg w = elim (Result-cases (check_message lib env (stamped env msg) w).0) [
    | inl (e, h) ↦ rw (h, process) (rw (check_message-tables env (stamped env msg) w) (refused e))
    | inr (u, h) ↦
        rw (h, process)
          (rw (check_message-tables env (stamped env msg) w)
            (record_message-Ends lib env (stamped env msg) w.tables))
  ]
