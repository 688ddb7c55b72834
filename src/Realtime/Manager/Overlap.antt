-- ===== src/Realtime/Manager/Overlap.antt =====
-- `Unregister` in its critical sections: the lock of a user's connections is free again before the user is
-- deleted from the index, and a `Register` can run in between.
use krampus.Prelude.{
  ℕ, String, Bool, true, false, Option, none, some, [], ◌∷◌, ◌≡◌, ◌≢◌, refl, ap, ◌∙◌, inl, inr,
  arith, eq_iff, str_eq, str_eq_refl, if◌then◌else◌, Option-cases, Bool-cases, ◌&&◌,
}
use krampus.Prelude.Dict.{Dict, lookup, insert, delete, lookup-delete_self}
use krampus.Domain.Errors.{err, plain}
use krampus.Domain.Message.{GoLib}
use krampus.Realtime.Client.{conn_id, get_user_id, get_room_id}
use krampus.Realtime.Manager.{
  Manager, is_empty, remove_conn, register, unregister, unsubscribe_from_room, find_client,
}
use krampus.Realtime.Manager.Lookup.{
  subscribed, client_user, client_room, id_at, subscribed-register, subscribed-unregister,
}

-- the section under `uc.mu`: the connection is deleted
unfoldable pub take_conn : String → String → Dict (Dict ℕ) → Dict (Dict ℕ)
take_conn user id d = elim (lookup user d) [
  | none ↦ d
  | some conns ↦ insert user (delete id conns) d
]

-- `empty`, read in that section
unfoldable pub is_left_empty : String → String → Dict (Dict ℕ) → Bool
is_left_empty user id d = elim (lookup user d) [
  | none ↦ false
  | some conns ↦ is_empty (delete id conns)
]

-- `m.users.Delete`, after the lock
unfoldable pub drop_user : Bool → String → Dict (Dict ℕ) → Dict (Dict ℕ)
drop_user empty user d = if empty then delete user d else d

delete-insert :
    (user : String) (conns : Dict ℕ) (d : Dict (Dict ℕ))
    → delete user (insert user conns d) ≡ delete user d
unfolding delete insert
delete-insert user conns [] = ground (arith, str_eq_refl user)
delete-insert user conns ((j, v) ∷ d) = ground (arith, str_eq_refl user, delete-insert user conns d)

-- With nothing in between, the sections do what `Unregister` does to the index by users.
pub remove_conn-sections :
    (user id : String) (d : Dict (Dict ℕ))
    → drop_user (is_left_empty user id d) user (take_conn user id d) ≡ remove_conn user id d
unfolding drop_user is_left_empty take_conn remove_conn
remove_conn-sections user id d = elim (Option-cases (lookup user d)) [
  | inl e ↦ simp (e, drop_user, is_left_empty, take_conn, remove_conn) refl
  | inr (conns, e) ↦ elim (Bool-cases (is_empty (delete id conns))) [
    | inl c ↦
        simp (e, c, drop_user, is_left_empty, take_conn, remove_conn)
          (delete-insert user (delete id conns) d)
    | inr c ↦ simp (e, c, drop_user, is_left_empty, take_conn, remove_conn) refl
  ]
]

lookup-drop_user :
    (empty : Bool) (user : String) (d : Dict (Dict ℕ))
    → empty ≡ true
    → lookup user (drop_user empty user d) ≡ none
unfolding drop_user
lookup-drop_user empty user d e = rw (e, drop_user) (lookup-delete_self user d)

find_client-none :
    (user id : String) (m : Manager)
    → lookup user m.users ≡ none
    → find_client user id m ≡ err (plain "user not connected")
unfolding find_client
find_client-none user id m e = rw (e, find_client) refl

if_differ : (a b c : Bool) (x y : Option ℕ) → c ≡ false → (if a && (b && c) then x else y) ≡ y
if_differ a b c x y e = ground (arith, e)

if_same :
    {a b c : Bool}
    → a ≡ true
    → b ≡ true
    → c ≡ true
    → (x y : Option ℕ) → (if a && (b && c) then x else y) ≡ x
if_same d e f x y = ground (arith, d, e, f)

module _ (lib : GoLib) where
  -- `Unregister` of one client with a `Register` of another between its first section and the deletion
  unfoldable pub overlapped : ℕ → ℕ → ℕ → ℕ → ℕ → ℕ → Manager → Manager
  unfolding take_conn is_left_empty drop_user register unsubscribe_from_room
  overlapped t₁ t₂ t₃ t₄ leaver comer m =
      let user = get_user_id (m.clients leaver) in
      let id = conn_id lib t₁ (m.clients leaver) in
      let taken = record m { users = take_conn user id m.users } in
      let joined = register lib t₂ t₃ comer taken in
      let dropped = record joined {
        users = drop_user (is_left_empty user id m.users) user joined.users;
      } in
      unsubscribe_from_room lib t₄ (get_room_id (m.clients leaver)) user leaver dropped

  subscribed-unsubscribe_from_room :
      (t c : ℕ) (m : Manager) (r v j : String)
      → subscribed r v j (unsubscribe_from_room lib t (client_room m c) (client_user m c) c m)
        ≡ subscribed r v j (unregister lib t t c m)
  unfolding unregister unsubscribe_from_room
  subscribed-unsubscribe_from_room t c m r v j =
      elim (Option-cases (lookup (client_room m c) m.rooms)) [
        | inl e ↦ simp (e, unregister, unsubscribe_from_room) refl
        | inr (subs, e) ↦ simp (e, unregister, unsubscribe_from_room) refl
      ]

  users-unsubscribe_from_room :
      (t c : ℕ) (room user : String) (m : Manager)
      → (unsubscribe_from_room lib t room user c m).users ≡ m.users
  unfolding unsubscribe_from_room
  users-unsubscribe_from_room t c room user m = elim (Option-cases (lookup room m.rooms)) [
    | inl e ↦ simp (e, unsubscribe_from_room) refl
    | inr (subs, e) ↦ simp (e, unsubscribe_from_room) refl
  ]

  -- When the last connection of a user leaves and another client of the user registers between the two
  -- sections, under another connection id, then the client that came is in its room but the user is in no
  -- entry of the index by users: `findClient` answers that the user is not connected.
  pub overlapped-find_client :
      (t₁ t₂ t₃ t₄ leaver comer : ℕ) (m : Manager) (id : String)
      → client_user m comer ≡ client_user m leaver
      → is_left_empty (client_user m leaver) (id_at lib m leaver t₁) m.users ≡ true
      → id_at lib m comer t₃ ≢ id_at lib m leaver t₄
      → (find_client (client_user m leaver) id (overlapped t₁ t₂ t₃ t₄ leaver comer m)
          ≡ err (plain "user not connected"))
        × (subscribed
              (client_room m comer)
              (client_user m leaver)
              (id_at lib m comer t₃)
              (overlapped t₁ t₂ t₃ t₄ leaver comer m)
            ≡ some comer)
  unfolding overlapped register
  overlapped-find_client t₁ t₂ t₃ t₄ leaver comer m id u e n =
      let user : String = client_user m leaver in
      let empty : Bool = is_left_empty user (id_at lib m leaver t₁) m.users in
      let taken : Manager = record m { users = take_conn user (id_at lib m leaver t₁) m.users } in
      let joined : Manager = register lib t₂ t₃ comer taken in
      let dropped : Manager = record joined { users = drop_user empty user joined.users } in
      let new : String = id_at lib m comer t₃ in
      let differ : str_eq (id_at lib m leaver t₄) new ≡ false =
        ground (arith, eq_iff (id_at lib m leaver t₄) new, n) in
      (
        find_client-none user id (overlapped t₁ t₂ t₃ t₄ leaver comer m) (
            ap (lookup user)
              (users-unsubscribe_from_room t₄ leaver (client_room m leaver) user dropped)
            ∙ lookup-drop_user empty user joined.users e),
        subscribed-unsubscribe_from_room t₄ leaver dropped (client_room m comer) user new
            ∙ subscribed-unregister lib t₄ t₄ leaver dropped (client_room m comer) user new
            ∙ if_differ (str_eq (client_room m leaver) (client_room m comer)) (str_eq user user)
                (str_eq (id_at lib m leaver t₄) new) none _ differ
            ∙ subscribed-register lib t₂ t₃ comer taken (client_room m comer) user new
            ∙ if_same (str_eq_refl (client_room m comer)) ((eq_iff (client_user m comer) user).1 u)
                (str_eq_refl new) (some comer) _,
      )
