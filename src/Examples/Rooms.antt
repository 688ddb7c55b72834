-- ===== src/Examples/Rooms.antt =====
-- The theorems on rooms, at the room of the test data.
use krampus.Prelude.{String, true, [], ◌∷◌, none, ◌≡◌, ◌≢◌, refl, ◌↔◌, ◌⊎◌, ◌≤◌, In, length}
use krampus.Prelude.Dict.{lookup}
use krampus.Chat.Access.{can_send_message, can_send_message_iff}
use krampus.Chat.Rooms.{RoomWorld, RoomFaults, get_room, run_pending, stored}
use krampus.Chat.Rooms.Coherent.{IsCoherent, start, next, ran, got, Reach-get_room}
use krampus.Examples.{room}

abbrev file_type : String
file_type = "file"

can_send_message_iff_example : (can_send_message room "bob" file_type ≡ true) ↔ (
    (In "bob" room.members × (room.type ≢ "video_call"))
    ⊎ (In "bob" room.members × (2 ≤ length room.members))
    ⊎ ((¬ In "bob" room.members) × (file_type ≡ "system")))
can_send_message_iff_example = can_send_message_iff room "bob" file_type refl

abbrev no_faults : RoomFaults
no_faults = record { cache_get = none; cache_write = none; db = none }

-- one room in the table, nothing in the cache
abbrev rooms : RoomWorld
rooms = record { table = ("lobby", room) ∷ []; cache = []; pending = [] }

rooms-IsCoherent : IsCoherent rooms
unfolding lookup
rooms-IsCoherent = record { cache_agrees = λ id r e. cc; pending_agrees = tt }

abbrev after_read : RoomWorld
unfolding get_room
after_read = (get_room no_faults "lobby" rooms).1

Reach-get_room_example :
    (get_room no_faults "lobby" (run_pending none 0 after_read)).0
    ≡ stored none "lobby" (run_pending none 0 after_read).table
unfolding after_read get_room
Reach-get_room_example =
    Reach-get_room no_faults "lobby" (next (next start (got no_faults "lobby")) (ran none 0))
      rooms-IsCoherent refl
