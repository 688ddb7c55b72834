-- ===== src/Realtime/Client.antt =====
-- WebSocketClient.go, SSEClient.go, sse_channels.go, event_builder.go of internal/message/adapters.
use Prim.Native.String.{◌++◌}
use krampus.Prelude.{
  ◌⊎◌, inl, inr, ◌≡◌, refl, ℕ, ◌+◌, ◌^◌, ◌%◌, String, Bool, false, ◌&&◌, ◌||◌, not, List, [], ◌∷◌,
  str_eq, ltb, if◌then◌else◌, length, contains,
}
use mathlib.Core.List.{◌++◌ as append}
use krampus.Domain.Errors.{Result, ok, err, plain, Error}
use krampus.Domain.Message.{Message, Event, GoLib, marshal_message, unmarshal_message}

pub record WsClient : Type 0 where
  pub user_id : String
  pub room_id : String
  pub remote_addr : String
  -- `ctx.Done()` is closed
  pub cancelled : Bool
  -- the channel `Send`, oldest first
  pub send : List Message

pub record SseClient : Type 0 where
  pub user_id : String
  pub room_id : String
  pub subscriptions : List String
  pub cancelled : Bool
  -- the channel `EventSend`, oldest first
  pub event_send : List Event

-- The two implementations of `TransportClient`.
pub data TransportClient : Type 0 where
  websocket : WsClient → TransportClient
  sse : SseClient → TransportClient

-- `make(chan …, 256)` in both constructors
abbrev pub channel_capacity : ℕ
channel_capacity = 256

-- `NewClient`
unfoldable pub new_client : String → String → String → WsClient
new_client user room addr = record {
  user_id = user;
  room_id = room;
  remote_addr = addr;
  cancelled = false;
  send = [];
}

-- `NewSSEClient`, with a writer that can flush
unfoldable pub new_sse_client : String → String → SseClient
new_sse_client user room = record {
  user_id = user;
  room_id = room;
  subscriptions = "message" ∷ "notification" ∷ "room_update" ∷ "presence" ∷ "delivery" ∷ [];
  cancelled = false;
  event_send = [];
}

-- `ConnID`, called at the time `now`
unfoldable pub conn_id : GoLib → ℕ → TransportClient → String
conn_id lib now (websocket c) = c.remote_addr ++ ("-" ++ c.user_id)
conn_id lib now (sse c) = "sse-" ++ (c.user_id ++ ("-" ++ lib.format_int now))

-- `GetUserID`
abbrev pub get_user_id : TransportClient → String
get_user_id (websocket c) = c.user_id
get_user_id (sse c) = c.user_id

-- `GetRoomID`
abbrev pub get_room_id : TransportClient → String
get_room_id (websocket c) = c.room_id
get_room_id (sse c) = c.room_id

pub data TransportKind : Type 0 where
  transport_websocket transport_sse : TransportKind

-- `Transport`
abbrev pub transport : TransportClient → TransportKind
transport (websocket c) = transport_websocket
transport (sse c) = transport_sse

-- `IsSubscribed`
unfoldable pub is_subscribed : SseClient → String → Bool
is_subscribed c channel = contains channel c.subscriptions

pub data Selected : Type 0 where
  is_done is_sent is_default : Selected

-- `select` over `<-ctx.Done()`, a send and `default`. Go chooses among the ready cases; `pick` is
-- its choice where both are ready.
abbrev pub select : Bool → Bool → Bool → Selected
select pick cancelled room =
    if cancelled && (not room || pick) then is_done else if room then is_sent else is_default

abbrev pub has_room {ℓ} : {A : Type ℓ} → List A → Bool
has_room q = ltb (length q) channel_capacity

abbrev pub err_canceled : Error
err_canceled = plain "context canceled"

abbrev pub err_slow_consumer : Error
err_slow_consumer = plain "slow consumer"

-- the `select` of `SafeSend`, once the event's payload has been decoded
unfoldable pub send_decoded : Bool → Result Message → WsClient → Result WsClient
send_decoded pick (err e) c = err e
send_decoded pick (ok msg) c = elim (select pick c.cancelled (has_room c.send)) [
  | is_done ↦ err err_canceled
  | is_sent ↦ ok (record c { send = append c.send (msg ∷ []) })
  | is_default ↦ err err_slow_consumer
]

pub Selected-cases : (s : Selected) → (s ≡ is_done) ⊎ ((s ≡ is_sent) ⊎ (s ≡ is_default))
Selected-cases is_done = inl refl
Selected-cases is_sent = inr (inl refl)
Selected-cases is_default = inr (inr refl)

-- `SafeSend` of `Client`
unfoldable pub safe_send_ws : GoLib → Bool → Event → WsClient → Result WsClient
unfolding send_decoded
safe_send_ws lib pick event c = send_decoded pick (unmarshal_message lib event.payload) c

-- `SafeSendEvent`, and `SafeSend` of `SSEClient`
unfoldable pub safe_send_event : Bool → Event → SseClient → Result SseClient
safe_send_event pick event c = elim (select pick c.cancelled (has_room c.event_send)) [
  | is_done ↦ err err_canceled
  | is_sent ↦ ok (record c { event_send = append c.event_send (event ∷ []) })
  | is_default ↦ err err_slow_consumer
]

abbrev pub map_ok {ℓ κ} : {A : Type ℓ} {B : Type κ} → (A → B) → Result A → Result B
map_ok f (ok a) = ok (f a)
map_ok f (err e) = err e

-- `TransportClient.SafeSend`
unfoldable pub safe_send : GoLib → Bool → Event → TransportClient → Result TransportClient
unfolding safe_send_ws safe_send_event
safe_send lib pick event (websocket c) = map_ok websocket (safe_send_ws lib pick event c)
safe_send lib pick event (sse c) = map_ok sse (safe_send_event pick event c)

-- the `switch` of `BuildEvent`
unfoldable pub event_type : String → String
event_type t =
    if str_eq t "presence_realtime"
    then "presence"
    else if str_eq t "system"
    then "room_update"
    else "message"

-- `BuildEvent`
unfoldable pub build_event : GoLib → ℕ → Message → Result Event
unfolding event_type
build_event lib seq m = elim (marshal_message lib m) [
  | err e ↦ err e
  | ok payload ↦ ok (record {
    id = m.id;
    sequence = seq;
    type = event_type m.type;
    aggregate_id = m.room_id;
    user_id = m.user_id;
    room_id = m.room_id;
    timestamp = m.timestamp;
    payload = payload;
  })
]

-- `EventToChannel`
unfoldable pub event_to_channel : String → String
event_to_channel t =
    if str_eq t "message"
    then "message"
    else if str_eq t "notification"
    then "notification"
    else if str_eq t "room_update"
    then "room_update"
    else if str_eq t "presence"
    then "presence"
    else if str_eq t "delivery"
    then "delivery"
    else "message"

-- `Next` of the sequencer: `atomic.Int64`, as its 64-bit pattern. The result is the new value.
abbrev pub next_sequence : ℕ → ℕ
next_sequence s = (s + 1) % 2 ^ 64
