-- ===== src/Chat/Rooms.antt =====
-- `RoomService` of internal/chat/service/roomService.go, over the table of
-- internal/chat/storage/roomStorage.go and the cache of roomCache.go. The JSON that both keep is
-- taken as the room itself. `go rs.cache.SetRoom(…)` is a write that waits in `pending`, and runs at
-- some later step.
pub mod Coherent
pub mod Deleted
use Prim.Native.String.{◌++◌ as text_append}
use krampus.Prelude.{
  ℕ, zero, suc, String, Bool, Option, none, some, List, [], ◌∷◌, ◌++◌, if◌then◌else◌,
}
use krampus.Prelude.Dict.{Dict, lookup, insert, delete}
use krampus.Domain.Errors.{Error, plain, Result, ok, err}
use krampus.Domain.Room.{Room}
use krampus.Storage.Cache.{cached}
use krampus.Storage.Fault.{Fault, exec}
use krampus.Chat.Access.{validate_room, is_room_member}

pub record RoomWorld : Type 0 where
  pub table : Dict Room
  pub cache : Dict Room
  pub pending : List (String × Room)

-- which calls of the database and of the cache fail
pub record RoomFaults : Type 0 where
  pub cache_get : Fault
  pub cache_write : Fault
  pub db : Fault

-- `GetRoom` of the storage
unfoldable pub stored : Fault → String → Dict Room → Result Room
stored (some e) id table = err (plain (text_append "failed to get room: " e))
stored none id table = elim (lookup id table) [
  | none ↦ err (plain "failed to get room: no rows in result set")
  | some room ↦ ok room
]

-- `RoomService.GetRoom`
unfoldable pub get_room : RoomFaults → String → RoomWorld → Result Room × RoomWorld
unfolding cached stored
get_room faults id w = elim (cached faults.cache_get id w.cache) [
  | some room ↦ (ok room, w)
  | none ↦ elim (stored faults.db id w.table) [
    | err e ↦ (err e, w)
    | ok room ↦ (ok room, record w { pending = w.pending ++ (id, room) ∷ [] })
  ]
]

-- `RoomService.IsRoomMember`
unfoldable pub check_member : RoomFaults → String → String → RoomWorld → Result Bool × RoomWorld
unfolding get_room
check_member faults id user w =
    let (answer, w') = get_room faults id w in
    elim answer [ err e ↦ (err e, w') | ok room ↦ (ok (is_room_member room user), w') ]

-- UpsertRoom: an existing row keeps its type, owner and time of creation
unfoldable pub upsert_room : Room → Dict Room → Dict Room
upsert_room room table = elim (lookup room.id table) [
  | none ↦ insert room.id room table
  | some old ↦
      insert room.id
        (record old {
          name = room.name;
          members = room.members;
          settings = room.settings;
          updated_at = room.updated_at;
          avatar = room.avatar;
        })
        table
]

-- UpdateRoom, with the storage's own reading of the clock
unfoldable pub update_row : ℕ → Room → Dict Room → Dict Room
update_row now room table = elim (lookup room.id table) [
  | none ↦ table
  | some old ↦
      insert room.id
        (record old {
          name = room.name;
          members = room.members;
          settings = room.settings;
          updated_at = now;
          avatar = room.avatar;
        })
        table
]

-- `CreateRoom` at the time `now`
unfoldable pub create_room : Fault → ℕ → Room → RoomWorld → Result (Unit {0}) × RoomWorld
unfolding upsert_room validate_room
create_room db now room w = elim (validate_room room) [
  | err e ↦ (err e, w)
  | ok valid ↦
      let made = record valid { created_at = now; updated_at = now } in
      elim db [
        | some e ↦ (err (plain e), w)
        | none ↦ (
          ok tt,
          record w {
            table = upsert_room made w.table;
            pending = w.pending ++ (made.id, made) ∷ [];
          },
        )
      ]
]

-- `UpdateRoom`; the service and the storage read the clock at `t₁` and `t₂`
unfoldable pub update_room : RoomFaults → ℕ → ℕ → Room → RoomWorld → Result (Unit {0}) × RoomWorld
unfolding update_row
update_room faults t₁ t₂ room w =
    let dated = record room { updated_at = t₁ } in
    elim faults.db [
      | some e ↦ (err (plain e), w)
      | none ↦
          let (answer, cache) = exec faults.cache_write w.cache (insert dated.id dated w.cache) in
          (answer, record w { table = update_row t₂ dated w.table; cache = cache })
    ]

-- `DeleteRoom`
unfoldable pub delete_room : RoomFaults → String → RoomWorld → Result (Unit {0}) × RoomWorld
delete_room faults id w = elim faults.db [
  | some e ↦ (err (plain e), w)
  | none ↦
      let (answer, cache) = exec faults.cache_write w.cache (delete id w.cache) in
      (answer, record w { table = delete id w.table; cache = cache })
]

-- The k-th waiting cache write runs.
abbrev pub nth : ℕ → List (String × Room) → Option (String × Room)
nth k [] = none
nth zero (p ∷ ps) = some p
nth (suc k) (p ∷ ps) = nth k ps

abbrev pub without : ℕ → List (String × Room) → List (String × Room)
without k [] = []
without zero (p ∷ ps) = ps
without (suc k) (p ∷ ps) = p ∷ without k ps

unfoldable pub run_pending : Fault → ℕ → RoomWorld → RoomWorld
run_pending fault k w = elim (nth k w.pending) [
  | none ↦ w
  | some (id, room) ↦ record w {
    cache = (exec fault w.cache (insert id room w.cache)).1;
    pending = without k w.pending;
  }
]

-- The ten minutes of a cache entry are over.
unfoldable pub expire : String → RoomWorld → RoomWorld
expire id w = record w { cache = delete id w.cache }
