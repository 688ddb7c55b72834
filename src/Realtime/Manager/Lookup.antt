-- ===== src/Realtime/Manager/Lookup.antt =====
-- What the two indices of the registry answer after `Register` and `Unregister`.
use krampus.Prelude.{
  ◌↔◌, ℕ, String, Bool, ◌&&◌, Option, none, some, [], ◌∷◌, str_eq, if◌then◌else◌, ◌≡◌, refl, arith,
  eq_iff, Option-cases, inl, inr,
}
use krampus.Prelude.Dict.{Dict, lookup, insert, delete, lookup-insert, lookup-delete}
use krampus.Realtime.Manager.{
  Manager, is_empty, or_empty, add_conn, remove_conn, register, unregister, find_client,
}
use krampus.Domain.Errors.{ok}
use krampus.Domain.Message.{GoLib}
use krampus.Realtime.Client.{conn_id, get_user_id, get_room_id}

-- `d[user][id]`
unfoldable pub lookup_conn : String → String → Dict (Dict ℕ) → Option ℕ
lookup_conn user id d = lookup id (or_empty (lookup user d))

-- the handle under a user and a connection id
abbrev pub registered : String → String → Manager → Option ℕ
registered user id m = lookup_conn user id m.users

-- the handle under a room, a user and a connection id
abbrev pub subscribed : String → String → String → Manager → Option ℕ
subscribed room user id m = lookup_conn user id (or_empty (lookup room m.rooms))

lookup_nil : {V : Type 0} (k : String) → lookup {V = V} k [] ≡ none
unfolding lookup
lookup_nil k = refl

is_empty-lookup : (id : String) (d : Dict ℕ) (h : is_empty d ≡ Bool.true) → lookup id d ≡ none
unfolding lookup
is_empty-lookup id [] h = refl
is_empty-lookup id (x ∷ d) h = ground arith

pub lookup_conn-add :
    (u i v j : String) (c : ℕ) (d : Dict (Dict ℕ))
    → lookup_conn v j (add_conn u i c d)
      ≡ (if str_eq u v && str_eq i j then some c else lookup_conn v j d)
unfolding lookup_conn add_conn
lookup_conn-add u i v j c d = ground (
  arith,
  eq_iff u v,
  lookup-insert u v (insert i c (or_empty (lookup u d))) d,
  lookup-insert i j c (or_empty (lookup u d)),
)

pub lookup_conn-remove :
    (u i v j : String) (d : Dict (Dict ℕ))
    → lookup_conn v j (remove_conn u i d)
      ≡ (if str_eq u v && str_eq i j then none else lookup_conn v j d)
unfolding lookup_conn remove_conn
lookup_conn-remove u i v j d = elim (Option-cases (lookup u d)) [
  | inl e ↦ ground (arith, eq_iff u v, lookup_nil {V = ℕ} j)
  | inr (conns, e) ↦ ground (
    arith,
    eq_iff u v,
    lookup-delete u v d,
    lookup-insert u v (delete i conns) d,
    lookup-delete i j conns,
    is_empty-lookup j (delete i conns),
    lookup_nil {V = ℕ} j,
  )
]

lookup_conn-nil : (v j : String) → lookup_conn v j [] ≡ none
unfolding lookup_conn lookup
lookup_conn-nil v j = refl

is_empty-lookup_conn :
    (v j : String) (d : Dict (Dict ℕ)) → is_empty d ≡ Bool.true → lookup_conn v j d ≡ none
unfolding lookup_conn lookup
is_empty-lookup_conn v j [] h = refl
is_empty-lookup_conn v j (x ∷ d) h = ground arith

-- `findClient` succeeds exactly on the registered handles.
pub find_client-eq-ok :
    (u i : String) (c : ℕ) (m : Manager) → (find_client u i m ≡ ok c) ↔ (registered u i m ≡ some c)
unfolding find_client lookup_conn
find_client-eq-ok u i c m = elim (Option-cases (lookup u m.users)) [
  | inl e ↦ ground (arith, lookup_nil {V = ℕ} i)
  | inr (conns, e) ↦ elim (Option-cases (lookup i conns)) [
    | inl f ↦ ground arith
    | inr (a, f) ↦ ground arith
  ]
]

abbrev pub client_user : Manager → ℕ → String
client_user m c = get_user_id (m.clients c)

abbrev pub client_room : Manager → ℕ → String
client_room m c = get_room_id (m.clients c)

abbrev pub id_at : GoLib → Manager → ℕ → ℕ → String
id_at lib m c t = conn_id lib t (m.clients c)

module _ (lib : GoLib) (t₁ t₂ c : ℕ) (m : Manager) where
  pub registered-register :
      (v j : String)
      → registered v j (register lib t₁ t₂ c m) ≡ (
          if str_eq (client_user m c) v && str_eq (id_at lib m c t₁) j
          then some c
          else registered v j m)
  unfolding register
  registered-register v j = lookup_conn-add (client_user m c) (id_at lib m c t₁) v j c m.users

  pub subscribed-register :
      (r v j : String)
      → subscribed r v j (register lib t₁ t₂ c m) ≡ (
          if str_eq (client_room m c) r
            && (str_eq (client_user m c) v && str_eq (id_at lib m c t₂) j)
          then some c
          else subscribed r v j m)
  unfolding register
  subscribed-register r v j = ground (
    arith,
    eq_iff (client_room m c) r,
    lookup-insert (client_room m c) r
        (add_conn (client_user m c) (id_at lib m c t₂) c
          (or_empty (lookup (client_room m c) m.rooms)))
        m.rooms,
    lookup_conn-add (client_user m c) (id_at lib m c t₂) v j c
        (or_empty (lookup (client_room m c) m.rooms)),
  )

  pub registered-unregister :
      (v j : String)
      → registered v j (unregister lib t₁ t₂ c m) ≡ (
          if str_eq (client_user m c) v && str_eq (id_at lib m c t₁) j
          then none
          else registered v j m)
  unfolding unregister
  registered-unregister v j =
      ground (arith, lookup_conn-remove (client_user m c) (id_at lib m c t₁) v j m.users)

  pub subscribed-unregister :
      (r v j : String)
      → subscribed r v j (unregister lib t₁ t₂ c m) ≡ (
          if str_eq (client_room m c) r
            && (str_eq (client_user m c) v && str_eq (id_at lib m c t₂) j)
          then none
          else subscribed r v j m)
  unfolding unregister
  subscribed-unregister r v j = elim (Option-cases (lookup (client_room m c) m.rooms)) [
    | inl e ↦ ground (arith, eq_iff (client_room m c) r, lookup_conn-nil v j)
    | inr (subs, e) ↦ ground (
      arith,
      eq_iff (client_room m c) r,
      lookup-insert (client_room m c) r (remove_conn (client_user m c) (id_at lib m c t₂) subs)
          m.rooms,
      lookup-delete (client_room m c) r m.rooms,
      lookup_conn-remove (client_user m c) (id_at lib m c t₂) v j subs,
      is_empty-lookup_conn v j (remove_conn (client_user m c) (id_at lib m c t₂) subs),
      lookup_conn-nil v j,
    )
  ]
