-- ===== src/Messaging/ReadPump/Closing.antt =====
-- What is left of a connection whose loop returns.
use krampus.Prelude.{
  ℕ, true, false, none, ◌≡◌, ◌≢◌, refl, ap, sym, ◌∙◌, inl, inr, arith, Bool-cases, Option-cases,
  str_eq_refl,
}
use krampus.Domain.Message.{GoLib}
use krampus.Realtime.Client.{TransportClient, WsClient, websocket, conn_id}
use krampus.Realtime.Manager.{Manager, unregister}
use krampus.Realtime.Manager.Lookup.{
  registered, subscribed, registered-unregister, subscribed-unregister,
}
use krampus.Realtime.Broadcast.{update}
use krampus.Messaging.Limits.{RateLib}
use krampus.Messaging.ReadPump.{
  Decoder, Session, Server, Turn, reads_on, returned, close, cancel, is_cancelled, read_turn,
}

update_same : (heap : ℕ → TransportClient) (c : ℕ) (v : TransportClient) → update heap c v c ≡ v
unfolding update
update_same heap c v = ground arith

clients-unregister :
    (lib : GoLib) (t₁ t₂ c : ℕ) (m : Manager) → (unregister lib t₁ t₂ c m).clients ≡ m.clients
unfolding unregister
clients-unregister lib t₁ t₂ c m = ground arith

returned_close :
    (lib : GoLib) (decoder : Decoder) {rate : RateLib} (s : Session) (turn : Turn) (w : Server rate)
    → (read_turn lib decoder s turn w).0 ≡ returned
    → (read_turn lib decoder s turn w).1 ≡ close lib decoder s turn w
unfolding read_turn
returned_close lib decoder s turn w ends =
    elim (Bool-cases (is_cancelled (w.world.manager.clients s.client))) [
      | inl c ↦ simp (c, read_turn)
      | inr c ↦ elim (Bool-cases turn.allowed) [
        | inr a ↦ simp (c, a, read_turn)
        | inl a ↦ elim (Option-cases turn.frame) [
          | inl f ↦ simp (c, a, f, read_turn)
          | inr (payload, f) ↦ absurd (goes_on (sym ends ∙ simp (c, a, f, read_turn)))
        ]
      ]
    ]
  where
    goes_on : returned ≢ reads_on
    goes_on e = cc

-- the manager in which `Close` unregisters the client
abbrev cancelled : ℕ → Manager → Manager
unfolding update
cancelled c m = record m { clients = update m.clients c (cancel (m.clients c)) }

closed_server :
    (lib : GoLib) (decoder : Decoder) {rate : RateLib} (s : Session) (turn : Turn) (w : Server rate)
    → w.closed ≡ false
    → ((close lib decoder s turn w).closed ≡ true)
      × ((close lib decoder s turn w).world.manager
          ≡ unregister lib
              (turn.clock 2)
              (turn.clock 3)
              s.client
              (cancelled s.client w.world.manager))
unfolding close cancelled
closed_server lib decoder s turn w fresh = simp (fresh, close) (refl, refl)

cancelled_client :
    (c : ℕ) (m : Manager) (client : WsClient)
    → m.clients c ≡ websocket client
    → (cancelled c m).clients c ≡ websocket (record client { cancelled = true })
unfolding cancelled
cancelled_client c m client e = update_same m.clients c (cancel (m.clients c)) ∙ ap cancel e

-- A WebSocket client that is unregistered is in neither index.
unregistered :
    (lib : GoLib) (t₁ t₂ c : ℕ) (m : Manager) (client : WsClient)
    → m.clients c ≡ websocket client
    → let m' = unregister lib t₁ t₂ c m in
      let id = conn_id lib 0 (websocket client) in
      (registered client.user_id id m' ≡ none)
      × (subscribed client.room_id client.user_id id m' ≡ none)
unfolding conn_id
unregistered lib t₁ t₂ c m client e =
    let id = conn_id lib 0 (websocket client) in
    (
      ground (
        arith,
        e,
        registered-unregister lib t₁ t₂ c m client.user_id id,
        str_eq_refl client.user_id,
        str_eq_refl id,
        ap (conn_id lib t₁) e,
      ),
      ground (
        arith,
        e,
        subscribed-unregister lib t₁ t₂ c m client.room_id client.user_id id,
        str_eq_refl client.room_id,
        str_eq_refl client.user_id,
        str_eq_refl id,
        ap (conn_id lib t₂) e,
      ),
    )

-- Where the loop of a connection that is not yet closed returns, the connection is closed and its
-- context cancelled, and neither index has its WebSocket client under its connection id.
pub read_turn_closes :
    (lib : GoLib) (decoder : Decoder) {rate : RateLib} (s : Session) (turn : Turn) (w : Server rate)
    (c : WsClient)
    → w.world.manager.clients s.client ≡ websocket c
    → w.closed ≡ false
    → (read_turn lib decoder s turn w).0 ≡ returned
    → let w' = (read_turn lib decoder s turn w).1 in
      let m = w'.world.manager in
      (w'.closed ≡ true)
      × (is_cancelled (m.clients s.client) ≡ true)
      × (registered c.user_id (conn_id lib 0 (websocket c)) m ≡ none)
      × (subscribed c.room_id c.user_id (conn_id lib 0 (websocket c)) m ≡ none)
unfolding conn_id
read_turn_closes lib decoder s turn w c ws fresh ends =
    let done = closed_server lib decoder s turn w fresh in
    let m = cancelled s.client w.world.manager in
    let here = cancelled_client s.client w.world.manager c ws in
    let gone =
      unregistered lib (turn.clock 2) (turn.clock 3) s.client m (record c { cancelled = true })
        here in
    rw (returned_close lib decoder s turn w ends) (
      done.0,
      rw (done.1, clients-unregister lib (turn.clock 2) (turn.clock 3) s.client m, here) refl,
      rw done.1 gone.0,
      rw done.1 gone.1,
    )
