-- ===== src/Realtime/Broadcast/Routing.antt =====
-- What `RouteMessage` leaves of the manager.
use krampus.Prelude.{
  ℕ, ◌≤◌, String, Bool, true, Option, List, ◌≡◌, refl, ◌⊎◌, inl, inr, arith, Bool-cases,
  Option-cases, length,
}
use krampus.Prelude.Dict.{lookup}
use krampus.Domain.Errors.{ok, Result-cases}
use krampus.Domain.Message.{Message, Event, DeliveryJob, GoLib, is_realtime_only}
use krampus.Realtime.Client.{TransportClient, build_event, next_sequence}
use krampus.Realtime.Manager.{Manager}
use krampus.Realtime.Broadcast.{
  queue_capacity, offer_all, collect, is_websocket, room_handles, deliver, broadcast_realtime,
  broadcast_durable, is_suppressed, route_message,
}
use krampus.Realtime.Broadcast.Queue.{length-offer_all}

-- The indices are as before, the queue holds no more than its channel can, and the sequence is the
-- same or the next.
pub record Keeps (m m' : Manager) : Type 0 where
  pub same_users : m'.users ≡ m.users
  pub same_rooms : m'.rooms ≡ m.rooms
  pub bounded : length m'.delivery_queue ≤ queue_capacity
  pub counted : (m'.sequence ≡ m.sequence) ⊎ (m'.sequence ≡ next_sequence m.sequence)

offer_all-bounded :
    (lib : GoLib) (clock : ℕ → ℕ) (msg : Message) (heap : ℕ → TransportClient) (cs : List ℕ)
    (q : List DeliveryJob)
    → length q ≤ queue_capacity
    → length (offer_all lib clock 0 msg heap cs q) ≤ queue_capacity
offer_all-bounded lib clock msg heap cs q h =
    omega (arith, length-offer_all lib clock msg heap 0 cs q h)

module _ (lib : GoLib) (clock : ℕ → ℕ) (m : Manager)
    (room : length m.delivery_queue ≤ queue_capacity) where
  kept :
      (n : ℕ)
      → (n ≡ m.sequence) ⊎ (n ≡ next_sequence m.sequence)
      → Keeps m (record m { sequence = n })
  kept n le = record { same_users = refl; same_rooms = refl; bounded = room; counted = le }

  realtime-Keeps : (msg : Message) → Keeps m (broadcast_realtime lib clock msg m)
  unfolding broadcast_realtime
  realtime-Keeps msg = elim (Option-cases (lookup msg.room_id m.rooms)) [
    | inl e ↦ simp (e, broadcast_realtime) (kept m.sequence (inl refl))
    | inr (subs, e) ↦
        simp (e, broadcast_realtime)
          record {
            same_users = refl;
            same_rooms = refl;
            bounded =
                offer_all-bounded lib clock msg m.clients
                  (collect is_websocket m.clients (room_handles subs)) m.delivery_queue room;
            counted = inl refl;
          }
  ]

  deliver-Keeps :
      (pick : ℕ → Bool) (msg : Message) (event : Event) (cs : List ℕ) (n : ℕ)
      → (n ≡ m.sequence) ⊎ (n ≡ next_sequence m.sequence)
      → Keeps m (deliver lib clock pick msg event cs (record m { sequence = n }))
  unfolding deliver
  deliver-Keeps pick msg event cs n le = record {
    same_users = refl;
    same_rooms = refl;
    bounded =
        offer_all-bounded lib clock msg m.clients (collect is_websocket m.clients cs)
          m.delivery_queue room;
    counted = le;
  }

  durable-Keeps :
      (pick : ℕ → Bool) (msg : Message) → Keeps m (broadcast_durable lib clock pick msg m).1
  unfolding broadcast_durable
  durable-Keeps pick msg = elim (Result-cases (build_event lib (next_sequence m.sequence) msg)) [
    | inl (x, e) ↦ simp (e, broadcast_durable) (kept (next_sequence m.sequence) (inr refl))
    | inr (event, e) ↦ elim (Option-cases (lookup msg.room_id m.rooms)) [
      | inl f ↦ simp (e, f, broadcast_durable) (kept (next_sequence m.sequence) (inr refl))
      | inr (subs, f) ↦
          simp (e, f, broadcast_durable)
            (deliver-Keeps pick msg event (room_handles subs) (next_sequence m.sequence) (inr refl))
    ]
  ]

  -- Routing a message, by any of its branches, leaves both indices as they are, never fills the queue
  -- beyond its capacity, and takes at most one number of the sequence; for a user that the
  -- suppressor mutes nothing happens at all.
  pub route_message-Keeps :
      (pick : ℕ → Bool) (suppressor : Option (String → Bool)) (msg : Message)
      → Keeps m (route_message lib clock pick suppressor msg m).1
        × (is_suppressed suppressor msg.user_id ≡ true
            → route_message lib clock pick suppressor msg m ≡ (ok tt, m))
  unfolding route_message
  route_message-Keeps pick suppressor msg =
      elim (Bool-cases (is_suppressed suppressor msg.user_id)) [
        | inl s ↦ simp (s, route_message) (kept m.sequence (inl refl), λ e. refl)
        | inr s ↦ elim (Bool-cases (is_realtime_only msg.type)) [
          | inl r ↦ (simp (s, r, route_message) (realtime-Keeps msg), λ e. cc)
          | inr r ↦ (simp (s, r, route_message) (durable-Keeps pick msg), λ e. cc)
        ]
      ]
