-- ===== src/Realtime/Manager/Tidy.antt =====
-- The maps of the registry hold no empty map, so a user or a room without connections leaves no
-- entry behind.
use krampus.Prelude.{
  ℕ, String, false, [], ◌∷◌, ◌≡◌, refl, arith, Option-cases, Bool-cases, inl, inr, All, All-In,
  str_eq,
}
use krampus.Prelude.Dict.{Dict, lookup, insert, delete, lookup-In}
use krampus.Domain.Message.{GoLib}
use krampus.Realtime.Client.{conn_id, get_user_id, get_room_id}
use krampus.Realtime.Manager.{
  Manager, is_empty, or_empty, add_conn, remove_conn, register, unregister, unsubscribe_from_room,
}

-- Each value of the map has an entry.
abbrev pub IsFilled : {V : Type 0} → Dict (Dict V) → Type 0
IsFilled = All (λ e. is_empty e.1 ≡ false)

pub record IsTidy (m : Manager) : Type 0 where
  pub users_filled : IsFilled m.users
  pub rooms_filled : IsFilled m.rooms
  pub subs_filled : All (λ e. IsFilled e.1) m.rooms

module _ {V : Type 0} (P : String × V → Type 0) where
  pub All-insert : (k : String) (v : V) (d : Dict V) → All P d → P (k, v) → All P (insert k v d)
  unfolding insert
  All-insert k v [] h p = (p, tt)
  All-insert k v ((j, w) ∷ d) h p = elim (Bool-cases (str_eq j k)) [
    | inl e ↦ rw (e) (p, h.1)
    | inr e ↦ rw (e) (h.0, All-insert k v d h.1 p)
  ]

  pub All-delete : (k : String) (d : Dict V) → All P d → All P (delete k d)
  unfolding delete
  All-delete k [] h = tt
  All-delete k ((j, w) ∷ d) h = elim (Bool-cases (str_eq j k)) [
    | inl e ↦ rw (e) (All-delete k d h.1)
    | inr e ↦ rw (e) (h.0, All-delete k d h.1)
  ]

is_empty-insert : {V : Type 0} (k : String) (v : V) (d : Dict V) → is_empty (insert k v d) ≡ false
unfolding insert
is_empty-insert k v [] = refl
is_empty-insert k v ((j, w) ∷ d) = ground arith

add_conn-IsFilled :
    (u i : String) (c : ℕ) (d : Dict (Dict ℕ)) → IsFilled d → IsFilled (add_conn u i c d)
unfolding add_conn
add_conn-IsFilled u i c d h =
    All-insert (λ e. is_empty e.1 ≡ false) u _ d h (is_empty-insert i c (or_empty (lookup u d)))

remove_conn-IsFilled :
    (u i : String) (d : Dict (Dict ℕ)) → IsFilled d → IsFilled (remove_conn u i d)
unfolding remove_conn
remove_conn-IsFilled u i d h = elim (Option-cases (lookup u d)) [
  | inl e ↦ rw (e, remove_conn) h
  | inr (conns, e) ↦ elim (Bool-cases (is_empty (delete i conns))) [
    | inl f ↦ rw (e, f, remove_conn) (All-delete (λ e. is_empty e.1 ≡ false) u d h)
    | inr f ↦
        rw (e, f, remove_conn) (All-insert (λ e. is_empty e.1 ≡ false) u (delete i conns) d h f)
  ]
]

or_empty-IsFilled :
    (r : String) (d : Dict (Dict (Dict ℕ)))
    → All (λ e. IsFilled e.1) d
    → IsFilled (or_empty (lookup r d))
or_empty-IsFilled r d h = elim (Option-cases (lookup r d)) [
  | inl e ↦ rw e tt
  | inr (subs, e) ↦ rw e (All-In (λ e. IsFilled e.1) (r, subs) d h (lookup-In r subs d e))
]

-- `Register` keeps the registry tidy.
pub register-IsTidy :
    (lib : GoLib) (t₁ t₂ c : ℕ) (m : Manager) → IsTidy m → IsTidy (register lib t₁ t₂ c m)
unfolding register
register-IsTidy lib t₁ t₂ c m h =
    let u = get_user_id (m.clients c) in
    let r = get_room_id (m.clients c) in
    let i = conn_id lib t₂ (m.clients c) in
    let subs = or_empty (lookup r m.rooms) in
    let filled = add_conn-IsFilled u i c subs (or_empty-IsFilled r m.rooms h.subs_filled) in
    record {
      users_filled = add_conn-IsFilled u (conn_id lib t₁ (m.clients c)) c m.users h.users_filled;
      rooms_filled =
          All-insert (λ e. is_empty e.1 ≡ false) r (add_conn u i c subs) m.rooms h.rooms_filled
            (is_empty-insert u _ subs);
      subs_filled =
          All-insert (λ e. IsFilled e.1) r (add_conn u i c subs) m.rooms h.subs_filled filled;
    }

unsubscribe-IsTidy :
    (lib : GoLib) (t : ℕ) (r u : String) (c : ℕ) (m : Manager)
    → IsTidy m
    → IsTidy (unsubscribe_from_room lib t r u c m)
unfolding unsubscribe_from_room
unsubscribe-IsTidy lib t r u c m h = elim (Option-cases (lookup r m.rooms)) [
  | inl e ↦ rw (e, unsubscribe_from_room) h
  | inr (subs, e) ↦
      let subs' = remove_conn u (conn_id lib t (m.clients c)) subs in
      let filled =
        remove_conn-IsFilled u (conn_id lib t (m.clients c)) subs (
          All-In (λ e. IsFilled e.1) (r, subs) m.rooms h.subs_filled
            (lookup-In r subs m.rooms e)) in
      elim (Bool-cases (is_empty subs')) [
        | inl f ↦
            rw (e, unsubscribe_from_room, f)
              (record {
                users_filled = h.users_filled;
                rooms_filled = All-delete (λ e. is_empty e.1 ≡ false) r m.rooms h.rooms_filled;
                subs_filled = All-delete (λ e. IsFilled e.1) r m.rooms h.subs_filled;
              })
        | inr f ↦
            rw (e, unsubscribe_from_room, f)
              (record {
                users_filled = h.users_filled;
                rooms_filled =
                    All-insert (λ e. is_empty e.1 ≡ false) r subs' m.rooms h.rooms_filled f;
                subs_filled = All-insert (λ e. IsFilled e.1) r subs' m.rooms h.subs_filled filled;
              })
      ]
]

-- `Unregister` keeps the registry tidy.
pub unregister-IsTidy :
    (lib : GoLib) (t₁ t₂ c : ℕ) (m : Manager) → IsTidy m → IsTidy (unregister lib t₁ t₂ c m)
unfolding unregister
unregister-IsTidy lib t₁ t₂ c m h =
    unsubscribe-IsTidy lib t₂ (get_room_id (m.clients c)) (get_user_id (m.clients c)) c _ (record {
      users_filled =
          remove_conn-IsFilled (get_user_id (m.clients c)) (conn_id lib t₁ (m.clients c)) m.users
            h.users_filled;
      rooms_filled = h.rooms_filled;
      subs_filled = h.subs_filled;
    })
