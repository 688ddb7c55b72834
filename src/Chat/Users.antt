-- ===== src/Chat/Users.antt =====
-- `UserClientService` of internal/chat/service/userClientService.go, over the users table
-- (UserClientStorage.go) and the cache (UserClientCache.go). `go SetUserClient(…)` is a write that
-- waits in `pending`.
pub mod Permissions
use krampus.Prelude.{
  ℕ, ◌-◌, ◌*◌, String, Bool, false, Option, none, some, List, [], ◌∷◌, ◌++◌, if◌then◌else◌, ◌==◌,
  ltb, contains,
}
use Prim.Native.String.{◌++◌ as text_append}
use krampus.Prelude.Dict.{Dict, lookup, insert, delete}
use krampus.Domain.Errors.{Error, plain, Result, ok, err, new_error, user_not_found, connection}
use krampus.Domain.Message.{GoLib, minute}
use krampus.Domain.Room.{User, ChatUserStatus, online, away, offline}
use krampus.Storage.Cache.{cached}
use krampus.Storage.Fault.{Fault, exec}

pub record UserWorld : Type 0 where
  pub table : List User
  pub cache : Dict User
  pub pending : List (String × User)

-- which calls of the database and of the cache fail
pub record UserFaults : Type 0 where
  pub cache_get : Fault
  pub cache_write : Fault
  pub db : Fault

-- GetUserByID
unfoldable pub find_row : ℕ → List User → Option User
find_row id [] = none
find_row id (u ∷ users) = let rest = find_row id users in if u.id == id then some u else rest

-- The fields that `GetUserClient` of the storage fills; the last activity is the time of creation.
abbrev pub loaded : User → User
loaded u = record {
  id = u.id;
  username = u.username;
  firstname = u.firstname;
  lastname = u.lastname;
  email = u.email;
  password_hash = "";
  avatar = u.avatar;
  two_fa_enabled = false;
  created_at = 0;
  last_active = u.created_at;
  status = none;
  permissions = [];
}

-- `GetUserClient` of the storage; `none` stands for its errors, whose texts nobody reads
unfoldable pub stored_user : GoLib → Fault → String → List User → Option User
unfolding find_row
stored_user lib (some e) id table = none
stored_user lib none id table = elim (lib.parse_int id) [
  | none ↦ none
  | some n ↦ elim (find_row n table) [ none ↦ none | some u ↦ some (loaded u) ]
]

-- `GetUser`
unfoldable pub get_user : GoLib → UserFaults → String → UserWorld → Result User × UserWorld
unfolding stored_user
get_user lib faults id w = elim (cached faults.cache_get id w.cache) [
  | some user ↦ (ok user, w)
  | none ↦ elim (stored_user lib faults.db id w.table) [
    | none ↦ (err (new_error user_not_found "user not found"), w)
    | some user ↦ (ok user, record w { pending = w.pending ++ (id, user) ∷ [] })
  ]
]

-- `user.LastActive = now` on what the cache answered without an error
unfoldable pub touch : ℕ → String → UserWorld → Option UserWorld
touch now id w = elim (lookup id w.cache) [
  | none ↦ none
  | some user ↦
      some (record w { pending = w.pending ++ (id, record user { last_active = now }) ∷ [] })
]

-- UpdateUserLastActive writes a column that no modelled query reads, so the table stays. `GetUserClient`
-- of the cache answers `nil` without an error for a missing key, and the assignment to
-- `user.LastActive` panics: `none`.
unfoldable pub update_last_activity : GoLib → UserFaults → ℕ → String → UserWorld → Option UserWorld
unfolding touch
update_last_activity lib faults now id w = elim (lib.parse_int id) [
  | none ↦ some w
  | some n ↦ elim faults.db [
    | some e ↦ some w
    | none ↦ elim faults.cache_get [ some e ↦ some w | none ↦ touch now id w ]
  ]
]

-- The first waiting cache write runs.
unfoldable pub run_first : Fault → UserWorld → UserWorld
run_first fault w = elim w.pending [
  | [] ↦ w
  | p ∷ ps ↦ record w { cache = (exec fault w.cache (insert p.0 p.1 w.cache)).1; pending = ps }
]

-- the loop of `ValidateUserPermissions`
unfoldable pub check_permissions : List String → List String → Result (Unit {0})
check_permissions owned [] = ok tt
check_permissions owned (p ∷ required) =
    let rest = check_permissions owned required in
    if contains p owned
    then rest
    else err (new_error connection (text_append "missing permission: " p))

-- `ValidateUserPermissions`
unfoldable pub validate_user_permissions :
    GoLib → UserFaults → String → List String → UserWorld → Result (Unit {0}) × UserWorld
unfolding get_user check_permissions
validate_user_permissions lib faults id required w =
    let (answer, w') = get_user lib faults id w in
    elim answer [
      | err e ↦ (err e, w')
      | ok user ↦ (check_permissions user.permissions required, w')
    ]

-- the `switch` of `GetUserStatus`; a time of activity in the future is 0 nanoseconds ago
unfoldable pub status_after : ℕ → ChatUserStatus
status_after inactive =
    if ltb inactive (5 * minute)
    then online
    else if ltb inactive (30 * minute)
    then away
    else offline

-- `GetUserStatus` at the time `now`
unfoldable pub get_user_status :
    GoLib → UserFaults → ℕ → String → UserWorld → ChatUserStatus × UserWorld
unfolding get_user status_after
get_user_status lib faults now id w =
    let (answer, w') = get_user lib faults id w in
    elim answer [ err e ↦ (offline, w') | ok user ↦ (status_after (now - user.last_active), w') ]
