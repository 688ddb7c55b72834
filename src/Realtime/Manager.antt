-- ===== src/Realtime/Manager.antt =====
-- The registry of WebSocketManager.go: `ConnectionManager`, `Register`, `Unregister`, `findClient`.
-- A client object is a handle into `clients`; both indices hold handles. Each method is one
-- step here. The source holds a lock for each user and each room, and frees it before it deletes an empty
-- entry: what another call can do in between is in Overlap.
pub mod Lookup
pub mod Tidy
pub mod Linked
pub mod Sse
pub mod Overlap
use krampus.Prelude.{
  ℕ, ◌+◌, String, Bool, true, false, Option, none, some, List, [], ◌∷◌, if◌then◌else◌,
}
use krampus.Prelude.Dict.{Dict, lookup, insert, delete}
use krampus.Domain.Errors.{Result, ok, err, plain}
use krampus.Domain.Message.{DeliveryJob, GoLib}
use krampus.Realtime.Client.{TransportClient, conn_id, get_user_id, get_room_id}

-- `ConnectionManager`; the repositories stand beside it in `Realtime.Delivery`
pub record Manager : Type 0 where
  pub clients : ℕ → TransportClient
  pub users : Dict (Dict ℕ)
  pub rooms : Dict (Dict (Dict ℕ))
  pub delivery_queue : List DeliveryJob
  pub sequence : ℕ

-- `NewConnectionManager`, before any client
unfoldable pub new_manager : (ℕ → TransportClient) → Manager
new_manager clients = record {
  clients = clients;
  users = [];
  rooms = [];
  delivery_queue = [];
  sequence = 0;
}

abbrev pub is_empty {ℓ} : {A : Type ℓ} → List A → Bool
is_empty [] = true
is_empty (x ∷ xs) = false

-- the value of a `LoadOrStore` with an empty map
abbrev pub or_empty : {V : Type 0} → Option (Dict V) → Dict V
or_empty none = []
or_empty (some d) = d

-- `d[user][id] = client`, with `d[user]` made if it is missing
unfoldable pub add_conn : String → String → ℕ → Dict (Dict ℕ) → Dict (Dict ℕ)
add_conn user id c d = insert user (insert id c (or_empty (lookup user d))) d

-- `delete(d[user], id)`, and `delete(d, user)` if nothing is left there
unfoldable pub remove_conn : String → String → Dict (Dict ℕ) → Dict (Dict ℕ)
remove_conn user id d = elim (lookup user d) [
  | none ↦ d
  | some conns ↦
      let rest = delete id conns in if is_empty rest then delete user d else insert user rest d
]

-- `subscribeToRoom`
unfoldable pub subscribe_to_room : GoLib → ℕ → String → String → ℕ → Manager → Manager
unfolding add_conn
subscribe_to_room lib now room user c m =
    let subs = add_conn user (conn_id lib now (m.clients c)) c (or_empty (lookup room m.rooms)) in
    record m { rooms = insert room subs m.rooms }

-- `unsubscribeFromRoom`
unfoldable pub unsubscribe_from_room : GoLib → ℕ → String → String → ℕ → Manager → Manager
unfolding remove_conn
unsubscribe_from_room lib now room user c m = elim (lookup room m.rooms) [
  | none ↦ m
  | some subs ↦
      let subs' = remove_conn user (conn_id lib now (m.clients c)) subs in
      record m { rooms = if is_empty subs' then delete room m.rooms else insert room subs' m.rooms }
]

-- `Register`; `ConnID` is called at the times `t₁` and `t₂`
unfoldable pub register : GoLib → ℕ → ℕ → ℕ → Manager → Manager
unfolding add_conn subscribe_to_room
register lib t₁ t₂ c m =
    let client = m.clients c in
    let user = get_user_id client in
    let m' = record m { users = add_conn user (conn_id lib t₁ client) c m.users } in
    subscribe_to_room lib t₂ (get_room_id client) user c m'

-- `Unregister`
unfoldable pub unregister : GoLib → ℕ → ℕ → ℕ → Manager → Manager
unfolding remove_conn unsubscribe_from_room
unregister lib t₁ t₂ c m =
    let client = m.clients c in
    let user = get_user_id client in
    let m' = record m { users = remove_conn user (conn_id lib t₁ client) m.users } in
    unsubscribe_from_room lib t₂ (get_room_id client) user c m'

-- `findClient`
unfoldable pub find_client : String → String → Manager → Result ℕ
find_client user id m = elim (lookup user m.users) [
  | none ↦ err (plain "user not connected")
  | some conns ↦ elim (lookup id conns) [ none ↦ err (plain "client not found") | some c ↦ ok c ]
]
