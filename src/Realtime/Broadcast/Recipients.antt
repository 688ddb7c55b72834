-- ===== src/Realtime/Broadcast/Recipients.antt =====
-- Whom a broadcast reaches.
use krampus.Prelude.{
  ℕ, suc, ◌+◌, ◌≤◌, ◌≡◌, refl, ◌∙◌, subst, String, Bool, true, List, [], ◌∷◌, ◌++◌, arith, some,
  Option-cases, Bool-cases, inl, inr, length, In, str_eq,
}
use krampus.Prelude.Dict.{Dict, lookup}
use krampus.Domain.Errors.{ok}
use krampus.Domain.Message.{Message, DeliveryJob, GoLib}
use krampus.Realtime.Client.{TransportClient, WsClient, websocket, conn_id}
use krampus.Realtime.Manager.{Manager, or_empty, find_client}
use krampus.Realtime.Manager.Lookup.{
  registered, subscribed, lookup_conn, client_room, find_client-eq-ok,
}
use krampus.Realtime.Manager.Linked.{IsLinked}
use krampus.Realtime.Broadcast.{
  queue_capacity, job_for, offer_all, handles, room_handles, collect, is_websocket,
  broadcast_realtime,
}
use krampus.Realtime.Broadcast.Queue.{jobs_for, offer_all_room}

pub In-append_left : {A : Type 0} (a : A) (xs ys : List A) → In a xs → In a (xs ++ ys)
In-append_left a [] ys h = absurd h
In-append_left a (x ∷ xs) ys (inl e) = inl e
In-append_left a (x ∷ xs) ys (inr h) = inr (In-append_left a xs ys h)

pub In-append_right : {A : Type 0} (a : A) (xs ys : List A) → In a ys → In a (xs ++ ys)
In-append_right a [] ys h = h
In-append_right a (x ∷ xs) ys h = inr (In-append_right a xs ys h)

-- What a map answers stands among its handles.
lookup-handles : (i : String) (c : ℕ) (d : Dict ℕ) → lookup i d ≡ some c → In c (handles d)
unfolding lookup handles
lookup-handles i c [] h = cc
lookup-handles i c ((j, v) ∷ d) h = ground (arith, lookup-handles i c d)

lookup-room_handles :
    (u i : String) (c : ℕ) (d : Dict (Dict ℕ)) → lookup_conn u i d ≡ some c → In c (room_handles d)
unfolding lookup_conn lookup room_handles
lookup-room_handles u i c [] h = cc
lookup-room_handles u i c ((v, conns) ∷ d) h = elim (Bool-cases (str_eq v u)) [
  | inl e ↦
      In-append_left c (handles conns) (room_handles d) (lookup-handles i c conns (ground arith))
  | inr e ↦
      In-append_right c (handles conns) (room_handles d)
        (lookup-room_handles u i c d (ground arith))
]

In-collect :
    (test : TransportClient → Bool) (heap : ℕ → TransportClient) (c : ℕ) (cs : List ℕ)
    → In c cs
    → test (heap c) ≡ true
    → In c (collect test heap cs)
unfolding collect
In-collect test heap c [] h t = absurd h
In-collect test heap c (x ∷ cs) (inl e) t = ground arith
In-collect test heap c (x ∷ cs) (inr h) t = ground (arith, In-collect test heap c cs h t)

-- The job of a WebSocket client does not depend on the time.
In-jobs_for :
    (lib : GoLib) (clock : ℕ → ℕ) (i : ℕ) (msg : Message) (heap : ℕ → TransportClient) (c t : ℕ)
    (w : WsClient) (cs : List ℕ)
    → heap c ≡ websocket w
    → In c cs
    → In (job_for lib t msg (heap c)) (jobs_for lib clock i msg heap cs)
unfolding jobs_for job_for conn_id
In-jobs_for lib clock i msg heap c t w [] e h = absurd h
In-jobs_for lib clock i msg heap c t w (x ∷ cs) e (inl p) = inl (rw (p, e) refl)
In-jobs_for lib clock i msg heap c t w (x ∷ cs) e (inr h) =
    inr (In-jobs_for lib clock (suc i) msg heap c t w cs e h)

-- the WebSocket clients of the message's room
unfoldable pub audience : Message → Manager → List ℕ
audience msg m =
    collect is_websocket m.clients (room_handles (or_empty (lookup msg.room_id m.rooms)))

queue-broadcast_realtime :
    (lib : GoLib) (clock : ℕ → ℕ) (msg : Message) (m : Manager)
    → (broadcast_realtime lib clock msg m).delivery_queue
      ≡ offer_all lib clock 0 msg m.clients (audience msg m) m.delivery_queue
unfolding broadcast_realtime audience offer_all collect room_handles
queue-broadcast_realtime lib clock msg m = elim (Option-cases (lookup msg.room_id m.rooms)) [
  | inl e ↦ rw (e, broadcast_realtime) refl
  | inr (subs, e) ↦ rw (e, broadcast_realtime) refl
]

-- In a linked registry, with room in the queue for the whole audience, a real-time broadcast puts a
-- job into the queue for every WebSocket client that is registered in the message's room, and the
-- user and client id on the job lead `findClient` back to that client. What waited before stays in
-- front.
pub broadcast_realtime_complete :
    (lib : GoLib) (clock : ℕ → ℕ) (msg : Message) (m : Manager) (u i : String) (c : ℕ)
    (w : WsClient)
    → IsLinked lib m
    → m.clients c ≡ websocket w
    → registered u i m ≡ some c
    → client_room m c ≡ msg.room_id
    → length m.delivery_queue + length (audience msg m) ≤ queue_capacity
    → let q = (broadcast_realtime lib clock msg m).delivery_queue in
      let job = job_for lib 0 msg (m.clients c) in
      (added : List DeliveryJob) × (q ≡ m.delivery_queue ++ added)
      × In job added
      × (find_client job.user_id job.client_id m ≡ ok c)
unfolding job_for
broadcast_realtime_complete lib clock msg m u i c w h e known room fits =
    let targets = audience msg m in
    let sub : subscribed msg.room_id u i m ≡ some c =
      subst (λ r. subscribed r u i m ≡ some c) room (h.in_room u i c known) in
    let there : In c targets =
      unfold audience in
      In-collect is_websocket m.clients c _
        (lookup-room_handles u i c (or_empty (lookup msg.room_id m.rooms)) sub) (rw e refl) in
    let (user, id) = h.keyed u i c 0 known in
    (
      jobs_for lib clock 0 msg m.clients targets,
      queue-broadcast_realtime lib clock msg m
          ∙ offer_all_room lib clock msg m.clients 0 targets m.delivery_queue fits,
      In-jobs_for lib clock 0 msg m.clients c 0 w targets e there,
      (find_client-eq-ok _ _ c m).1 (rw (user, id) known),
    )
