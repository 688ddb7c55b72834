-- ===== src/Realtime/Manager/Linked.antt =====
-- The index by users and the index by rooms hold the same connections, each under the keys of its
-- client.
use krampus.Prelude.{ℕ, String, none, some, ◌≡◌, refl, arith, eq_iff, str_eq_refl}
use krampus.Prelude.Dict.{lookup}
use krampus.Domain.Message.{GoLib}
use krampus.Realtime.Client.{TransportClient, WsClient, websocket, conn_id}
use krampus.Realtime.Manager.{Manager, register, unregister, new_manager}
use krampus.Realtime.Manager.Lookup.{
  registered, subscribed, lookup_conn, client_room, client_user, id_at, registered-register,
  subscribed-register, registered-unregister, subscribed-unregister,
}
use krampus.Realtime.Manager.Tidy.{IsTidy, register-IsTidy, unregister-IsTidy}

pub record IsLinked (lib : GoLib) (m : Manager) : Type 0 where
  pub in_room :
      (u i : String) (c : ℕ)
      → registered u i m ≡ some c
      → subscribed (client_room m c) u i m ≡ some c
  pub in_users :
      (r u i : String) (c : ℕ)
      → subscribed r u i m ≡ some c
      → (registered u i m ≡ some c) × (client_room m c ≡ r)
  pub keyed :
      (u i : String) (c t : ℕ)
      → registered u i m ≡ some c
      → (client_user m c ≡ u) × (id_at lib m c t ≡ i)

clients-register :
    (lib : GoLib) (t₁ t₂ c : ℕ) (m : Manager) → (register lib t₁ t₂ c m).clients ≡ m.clients
unfolding register
clients-register lib t₁ t₂ c m = refl

clients-unregister :
    (lib : GoLib) (t₁ t₂ c : ℕ) (m : Manager) → (unregister lib t₁ t₂ c m).clients ≡ m.clients
unfolding unregister
clients-unregister lib t₁ t₂ c m = ground arith

-- The connection id of a WebSocket client does not depend on the time of the call.
ws_id_stable :
    (lib : GoLib) (m : Manager) (c t₁ t₂ : ℕ) (w : WsClient)
    → m.clients c ≡ websocket w
    → id_at lib m c t₁ ≡ id_at lib m c t₂
unfolding conn_id
ws_id_stable lib m c t₁ t₂ w e = rw e refl

module _ (lib : GoLib) (t₁ t₂ c : ℕ) (w : WsClient) (m : Manager)
    (is_ws : m.clients c ≡ websocket w) (h : IsLinked lib m) where
  pub register-IsLinked :
      registered (client_user m c) (id_at lib m c t₁) m ≡ none
      → IsLinked lib (register lib t₁ t₂ c m)
  register-IsLinked fresh = record {
    in_room = λ u i d e. ground (
      arith,
      clients-register lib t₁ t₂ c m,
      ws_id_stable lib m c t₁ t₂ w is_ws,
      registered-register lib t₁ t₂ c m u i,
      subscribed-register lib t₁ t₂ c m (client_room (register lib t₁ t₂ c m) d) u i,
      eq_iff (client_room m c) (client_room m d),
      eq_iff (client_user m c) u,
      eq_iff (id_at lib m c t₁) i,
      str_eq_refl (client_room m c),
      h.in_room u i d,
    );
    in_users = λ r u i d e. ground (
      arith,
      clients-register lib t₁ t₂ c m,
      ws_id_stable lib m c t₁ t₂ w is_ws,
      registered-register lib t₁ t₂ c m u i,
      subscribed-register lib t₁ t₂ c m r u i,
      eq_iff (client_room m c) r,
      eq_iff (client_user m c) u,
      eq_iff (id_at lib m c t₁) i,
      h.in_users r u i d,
    );
    keyed = λ u i d t e. ground (
      arith,
      clients-register lib t₁ t₂ c m,
      ws_id_stable lib m c t t₁ w is_ws,
      registered-register lib t₁ t₂ c m u i,
      eq_iff (client_user m c) u,
      eq_iff (id_at lib m c t₁) i,
      h.keyed u i d t,
    );
  }

  pub unregister-IsLinked :
      registered (client_user m c) (id_at lib m c t₁) m ≡ some c
      → IsLinked lib (unregister lib t₁ t₂ c m)
  unregister-IsLinked known = record {
    in_room = λ u i d e. ground (
      arith,
      clients-unregister lib t₁ t₂ c m,
      ws_id_stable lib m c t₁ t₂ w is_ws,
      registered-unregister lib t₁ t₂ c m u i,
      subscribed-unregister lib t₁ t₂ c m (client_room (unregister lib t₁ t₂ c m) d) u i,
      eq_iff (client_user m c) u,
      eq_iff (id_at lib m c t₁) i,
      h.in_room u i d,
    );
    in_users = λ r u i d e. ground (
      arith,
      clients-unregister lib t₁ t₂ c m,
      ws_id_stable lib m c t₁ t₂ w is_ws,
      registered-unregister lib t₁ t₂ c m u i,
      subscribed-unregister lib t₁ t₂ c m r u i,
      eq_iff (client_room m c) r,
      eq_iff (client_user m c) u,
      eq_iff (id_at lib m c t₁) i,
      h.in_users r u i d,
    );
    keyed = λ u i d t e. ground (
      arith,
      clients-unregister lib t₁ t₂ c m,
      registered-unregister lib t₁ t₂ c m u i,
      h.keyed u i d t,
    );
  }

new-IsLinked : (lib : GoLib) (clients : ℕ → TransportClient) → IsLinked lib (new_manager clients)
unfolding new_manager lookup_conn lookup
new-IsLinked lib clients = record {
  in_room = λ u i c e. cc;
  in_users = λ r u i c e. (cc, cc);
  keyed = λ u i c t e. (cc, cc);
}

new-IsTidy : (clients : ℕ → TransportClient) → IsTidy (new_manager clients)
unfolding new_manager
new-IsTidy clients = record { users_filled = tt; rooms_filled = tt; subs_filled = tt }

-- A WebSocket client connects under a connection id that is not in use, or a registered one leaves.
pub data Step (lib : GoLib) (m : Manager) : Manager → Type 0 where
  connects :
      (t₁ t₂ c : ℕ) (w : WsClient)
      → m.clients c ≡ websocket w
      → registered (client_user m c) (id_at lib m c t₁) m ≡ none
      → Step lib m (register lib t₁ t₂ c m)
  leaves :
      (t₁ t₂ c : ℕ) (w : WsClient)
      → m.clients c ≡ websocket w
      → registered (client_user m c) (id_at lib m c t₁) m ≡ some c
      → Step lib m (unregister lib t₁ t₂ c m)

pub data Reach (lib : GoLib) (m : Manager) : Manager → Type 0 where
  here : Reach lib m m
  next : {n p : Manager} → Reach lib m n → Step lib n p → Reach lib m p

Step-invariant :
    (lib : GoLib) {m n : Manager}
    → Step lib m n
    → IsLinked lib m
    → IsTidy m
    → IsLinked lib n × IsTidy n
Step-invariant lib {m} (connects t₁ t₂ c w e fresh) l t =
    (register-IsLinked lib t₁ t₂ c w m e l fresh, register-IsTidy lib t₁ t₂ c m t)
Step-invariant lib {m} (leaves t₁ t₂ c w e known) l t =
    (unregister-IsLinked lib t₁ t₂ c w m e l known, unregister-IsTidy lib t₁ t₂ c m t)

-- From an empty manager, after any sequence of connections and disconnections of WebSocket clients,
-- the index by users and the index by rooms hold the same connections, each under the user and the
-- connection id of its client, and neither holds an empty map.
pub Reach-invariant :
    (lib : GoLib) (clients : ℕ → TransportClient) {m : Manager}
    → Reach lib (new_manager clients) m
    → IsLinked lib m × IsTidy m
Reach-invariant lib clients here = (new-IsLinked lib clients, new-IsTidy clients)
Reach-invariant lib clients (next r s) =
    let (l, t) = Reach-invariant lib clients r in Step-invariant lib s l t
