-- ===== src/Realtime/Broadcast.antt =====
-- The broadcasts of WebSocketManager.go: `RouteMessage`, `broadcastRealtime`, `broadcastDurable`,
-- `SendToUser`, `SendPresenceUpdate`. A broadcast is one step: no worker takes a job meanwhile.
pub mod Queue
pub mod Routing
pub mod Recipients
use krampus.Prelude.{
  ℕ, suc, ◌+◌, String, Bool, true, false, Option, none, some, List, [], ◌∷◌, ◌++◌, ltb, ◌==◌, not,
  if◌then◌else◌, length,
}
use krampus.Prelude.Dict.{Dict, lookup}
use krampus.Domain.Errors.{Result, ok, err}
use krampus.Domain.Message.{Message, Event, DeliveryJob, GoLib, is_realtime_only}
use krampus.Realtime.Client.{
  TransportClient, SseClient, websocket, sse, conn_id, get_user_id, get_room_id, is_subscribed,
  safe_send_event, build_event, event_to_channel, next_sequence,
}
use krampus.Realtime.Manager.{Manager, or_empty}

-- `make(chan *message.DeliveryJob, 8192)`
abbrev pub queue_capacity : ℕ
queue_capacity = 8192

-- `select { case m.deliveryQueue <- job: default: }`: a job that finds the queue full is dropped
unfoldable pub offer : DeliveryJob → List DeliveryJob → List DeliveryJob
offer job q = if ltb (length q) queue_capacity then q ++ job ∷ [] else q

-- the job of one recipient; `ConnID` is called at the time `now`
unfoldable pub job_for : GoLib → ℕ → Message → TransportClient → DeliveryJob
job_for lib now msg c = record {
  message = msg;
  client_id = conn_id lib now c;
  user_id = get_user_id c;
  room_id = get_room_id c;
  attempt = 0;
  next_retry_at = 0;
}

-- The loop over the collected clients; `clock i` is the time of the i-th call of `ConnID`.
unfoldable pub offer_all :
    GoLib
    → (ℕ → ℕ)
    → ℕ
    → Message
    → (ℕ → TransportClient)
    → List ℕ
    → List DeliveryJob
    → List DeliveryJob
unfolding offer job_for
offer_all lib clock i msg heap [] q = q
offer_all lib clock i msg heap (c ∷ cs) q =
    offer_all lib clock (suc i) msg heap cs (offer (job_for lib (clock i) msg (heap c)) q)

-- the handles of one user's map
unfoldable pub handles : Dict ℕ → List ℕ
handles [] = []
handles ((id, c) ∷ conns) = c ∷ handles conns

-- the handles of a room, user by user
unfoldable pub room_handles : Dict (Dict ℕ) → List ℕ
unfolding handles
room_handles [] = []
room_handles ((u, conns) ∷ subs) = handles conns ++ room_handles subs

abbrev pub is_websocket : TransportClient → Bool
is_websocket (websocket c) = true
is_websocket (sse c) = false

abbrev pub subscribed_to : String → TransportClient → Bool
subscribed_to channel (websocket c) = false
subscribed_to channel (sse c) = is_subscribed c channel

-- `clients = append(clients, client)` for those that pass a test
unfoldable pub collect : (TransportClient → Bool) → (ℕ → TransportClient) → List ℕ → List ℕ
collect test heap [] = []
collect test heap (c ∷ cs) =
    let rest = collect test heap cs in if test (heap c) then c ∷ rest else rest

-- `broadcastRealtime`
unfoldable pub broadcast_realtime : GoLib → (ℕ → ℕ) → Message → Manager → Manager
unfolding collect room_handles offer_all
broadcast_realtime lib clock msg m = elim (lookup msg.room_id m.rooms) [
  | none ↦ m
  | some subs ↦
      let targets = collect is_websocket m.clients (room_handles subs) in
      record m { delivery_queue = offer_all lib clock 0 msg m.clients targets m.delivery_queue }
]

-- what an object becomes where `SafeSendEvent` succeeds
abbrev pub sent_or_same : TransportClient → Result SseClient → TransportClient
sent_or_same c (ok s) = sse s
sent_or_same c (err e) = c

-- `SafeSendEvent` to an SSE client that has subscribed to the channel; others are left alone
unfoldable pub push_event : Bool → Event → TransportClient → TransportClient
unfolding safe_send_event event_to_channel is_subscribed
push_event pick event (websocket c) = websocket c
push_event pick event (sse c) =
    if is_subscribed c (event_to_channel event.type)
    then sent_or_same (sse c) (safe_send_event pick event c)
    else sse c

unfoldable pub update : (ℕ → TransportClient) → ℕ → TransportClient → ℕ → TransportClient
update heap c v d = if c == d then v else heap d

-- the SSE branch of the loops, over the handles in order; `pick i` is the choice of the i-th `select`
unfoldable pub push_all :
    (ℕ → Bool) → ℕ → Event → List ℕ → (ℕ → TransportClient) → ℕ → TransportClient
unfolding push_event update
push_all pick i event [] heap = heap
push_all pick i event (c ∷ cs) heap =
    push_all pick (suc i) event cs (update heap c (push_event (pick i) event (heap c)))

-- The branches of the loop over `clients`: SSE clients get the event, the others a job.
unfoldable pub deliver : GoLib → (ℕ → ℕ) → (ℕ → Bool) → Message → Event → List ℕ → Manager → Manager
unfolding push_all collect offer_all
deliver lib clock pick msg event cs m = record m {
  clients = push_all pick 0 event cs m.clients;
  delivery_queue =
      offer_all lib clock 0 msg m.clients (collect is_websocket m.clients cs) m.delivery_queue;
}

-- `broadcastDurable`
unfoldable pub broadcast_durable :
    GoLib → (ℕ → ℕ) → (ℕ → Bool) → Message → Manager → Result (Unit {0}) × Manager
unfolding build_event room_handles deliver
broadcast_durable lib clock pick msg m =
    let seq = next_sequence m.sequence in
    let m' = record m { sequence = seq } in
    elim (build_event lib seq msg) [
      | err e ↦ (err e, m')
      | ok event ↦ elim (lookup msg.room_id m.rooms) [
        | none ↦ (ok tt, m')
        | some subs ↦ (ok tt, deliver lib clock pick msg event (room_handles subs) m')
      ]
    ]

-- `SendToUser`
unfoldable pub send_to_user :
    GoLib → (ℕ → ℕ) → (ℕ → Bool) → String → Message → Manager → Result (Unit {0}) × Manager
unfolding build_event handles deliver
send_to_user lib clock pick user msg m =
    let seq = next_sequence m.sequence in
    let m' = record m { sequence = seq } in
    elim (build_event lib seq msg) [
      | err e ↦ (err e, m')
      | ok event ↦ elim (lookup user m.users) [
        | none ↦ (ok tt, m')
        | some conns ↦ (ok tt, deliver lib clock pick msg event (handles conns) m')
      ]
    ]

-- `SendPresenceUpdate`
unfoldable pub send_presence_update : GoLib → (ℕ → ℕ) → String → Message → Manager → Manager
unfolding collect room_handles offer_all is_subscribed
send_presence_update lib clock room msg m = elim (lookup room m.rooms) [
  | none ↦ m
  | some subs ↦
      let targets = collect (subscribed_to "presence") m.clients (room_handles subs) in
      record m { delivery_queue = offer_all lib clock 0 msg m.clients targets m.delivery_queue }
]

-- `m.suppressorFn != nil && !m.suppressorFn(ctx, userID)`
abbrev pub is_suppressed : Option (String → Bool) → String → Bool
is_suppressed none user = false
is_suppressed (some allow) user = not (allow user)

-- `RouteMessage`
unfoldable pub route_message :
    GoLib
    → (ℕ → ℕ)
    → (ℕ → Bool)
    → Option (String → Bool)
    → Message
    → Manager
    → Result (Unit {0}) × Manager
unfolding broadcast_realtime broadcast_durable is_realtime_only
route_message lib clock pick suppressor msg m =
    if is_suppressed suppressor msg.user_id
    then (ok tt, m)
    else if is_realtime_only msg.type
    then (ok tt, broadcast_realtime lib clock msg m)
    else broadcast_durable lib clock pick msg m
