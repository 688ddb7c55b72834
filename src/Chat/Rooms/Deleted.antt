-- ===== src/Chat/Rooms/Deleted.antt =====
-- A room that is deleted while a cache write of it waits.
use krampus.Prelude.{ℕ, String, none, some, ◌≡◌, refl}
use krampus.Prelude.Dict.{lookup, insert, delete, lookup-insert_self, lookup-delete_self}
use krampus.Domain.Errors.{ok}
use krampus.Domain.Room.{Room}
use krampus.Storage.Cache.{cached}
use krampus.Chat.Rooms.{RoomWorld, RoomFaults, get_room, delete_room, run_pending, nth}

deleted_world :
    (faults : RoomFaults) (id : String) (w : RoomWorld)
    → faults.db ≡ none
    → ((delete_room faults id w).1.table ≡ delete id w.table)
      × ((delete_room faults id w).1.pending ≡ w.pending)
unfolding delete_room
deleted_world faults id w e = rw (e, delete_room) (refl, refl)

ran_world :
    (k : ℕ) (id : String) (room : Room) (w : RoomWorld)
    → nth k w.pending ≡ some (id, room)
    → ((run_pending none k w).table ≡ w.table)
      × ((run_pending none k w).cache ≡ insert id room w.cache)
unfolding run_pending
ran_world k id room w e = rw (e, run_pending) (refl, refl)

get_room-hit :
    (faults : RoomFaults) (id : String) (room : Room) (w : RoomWorld)
    → faults.cache_get ≡ none
    → lookup id w.cache ≡ some room
    → (get_room faults id w).0 ≡ ok room
unfolding get_room cached
get_room-hit faults id room w c e = rw (c, e, get_room, cached)

-- If a cache write of a room waits when the room is deleted, and runs afterwards, then `GetRoom`
-- answers with the deleted room although the table has no row for it.
pub deleted_room_returns :
    (faults : RoomFaults) (k : ℕ) (id : String) (room : Room) (w : RoomWorld)
    → nth k w.pending ≡ some (id, room)
    → faults.db ≡ none
    → faults.cache_get ≡ none
    → let w' = run_pending none k (delete_room faults id w).1 in
      ((get_room faults id w').0 ≡ ok room) × (lookup id w'.table ≡ none)
deleted_room_returns faults k id room w e d c =
    let w' = (delete_room faults id w).1 in
    let gone = deleted_world faults id w d in
    let later = ran_world k id room w' (rw gone.1 e) in
    (
      get_room-hit faults id room (run_pending none k w') c
          (rw later.1 (lookup-insert_self id room w'.cache)),
      rw (later.0, gone.0) (lookup-delete_self id w.table),
    )
