-- ===== src/Messaging/ReadPump.antt =====
-- `readPump` and `Close` of internal/message/adapters/WebSocketClient.go: what one turn of the loop
-- does with the connection, with the manager and with the message service. Deadlines and limits of
-- the socket are not modelled; the token bucket of the connection answers in `Turn`.
pub mod Identity
pub mod Acknowledged
pub mod Closing
use krampus.Prelude.{ℕ, String, Bool, true, false, ◌||◌, Option, none, some, if◌then◌else◌, str_eq}
use krampus.Domain.Errors.{Error, Result, ok, err}
use krampus.Domain.Message.{
  Message, Metadata, AckPayload, delivered, read, GoLib, validate, set_timestamp, is_realtime_only,
}
use krampus.Storage.Fault.{Fault}
use krampus.Realtime.Client.{TransportClient, WsClient, SseClient, websocket, sse}
use krampus.Realtime.Manager.{Manager, unregister}
use krampus.Realtime.Broadcast.{update, broadcast_realtime}
use krampus.Realtime.Delivery.{World, handle_ack}
use krampus.Messaging.Limits.{RateLib}
use krampus.Messaging.Record.{Call}
use krampus.Messaging.Process.{Service, process}

-- `decoder.Decode` with unknown fields refused, and `json.Unmarshal` of an acknowledgement; `none` is
-- an error
pub record Decoder : Type 0 where
  pub decode : String → Option Message
  pub decode_ack : String → Option AckPayload

-- what a `Client` keeps of its connection
pub record Session : Type 0 where
  pub client : ℕ
  pub user_id : String
  pub room_id : String
  pub trace_id : String
  pub request_id : String
  pub correlation_id : String

pub record Server (rate : RateLib) : Type 0 where
  pub world : World
  pub service : Service rate
  -- `closeOnce` has run
  pub closed : Bool

-- what one turn cannot decide itself: the answers of the bucket and of the socket, the clock, the
-- new UUID, the failures
pub record Turn : Type 0 where
  pub allowed : Bool
  pub frame : Option String
  pub clock : ℕ → ℕ
  pub uuid : String
  pub ack_fault : Fault
  pub call : Call

pub data Loop : Type 0 where
  reads_on returned : Loop

abbrev pub is_cancelled : TransportClient → Bool
is_cancelled (websocket c) = c.cancelled
is_cancelled (sse c) = c.cancelled

abbrev pub cancel : TransportClient → TransportClient
cancel (websocket c) = websocket (record c { cancelled = true })
cancel (sse c) = sse (record c { cancelled = true })

abbrev pub is_ack : String → Bool
is_ack t = str_eq t "ack_delivered" || str_eq t "ack_read"

-- the status that the type of the frame decides
abbrev pub with_status : String → AckPayload → AckPayload
with_status t ack = record ack { status = if str_eq t "ack_read" then read else delivered }

-- the identity and the time that the server sets
unfoldable pub claimed : Session → Turn → Message → Message
unfolding set_timestamp
claimed s turn msg = set_timestamp (turn.clock 0) turn.uuid (record msg {
  user_id = s.user_id;
  room_id = s.room_id;
  metadata = record (msg.metadata) {
    trace_id = s.trace_id;
    request_id = s.request_id;
    correlation_id = s.correlation_id;
  };
})

module _ (lib : GoLib) (decoder : Decoder) {rate : RateLib} (s : Session) where
  -- `Close`
  unfoldable pub close : Turn → Server rate → Server rate
  unfolding update unregister
  close turn w =
      let m = w.world.manager in
      let cancelled = record m {
        clients = update m.clients s.client (cancel (m.clients s.client));
      } in
      let gone = unregister lib (turn.clock 2) (turn.clock 3) s.client cancelled in
      if w.closed
      then w
      else record w { closed = true; world = record (w.world) { manager = gone } }

  -- an acknowledgement; the error of `HandleAck` goes to the log
  unfoldable pub read_ack : Turn → Message → Server rate → Server rate
  unfolding handle_ack
  read_ack turn msg w = elim (decoder.decode_ack msg.payload) [
    | none ↦ w
    | some ack ↦ record w {
      world =
          (handle_ack turn.ack_fault (turn.clock 1) s.user_id (with_status msg.type ack) w.world).1;
    }
  ]

  -- a message with the identity of the session
  unfoldable pub accept : Turn → Message → Server rate → Server rate
  unfolding validate is_realtime_only broadcast_realtime process
  accept turn msg w = elim (validate (turn.clock 1) msg) [
    | some e ↦ w
    | none ↦
        if is_realtime_only msg.type
        then record w {
          world = record (w.world) {
            manager = broadcast_realtime lib turn.clock msg w.world.manager;
          };
        }
        else record w { service = (process lib turn.call msg w.service).1 }
  ]

  -- what a frame does
  unfoldable pub read_frame : Turn → String → Server rate → Server rate
  unfolding read_ack accept claimed
  read_frame turn payload w = elim (decoder.decode payload) [
    | none ↦ w
    | some msg ↦ if is_ack msg.type then read_ack turn msg w else accept turn (claimed s turn msg) w
  ]

  -- one turn of the loop
  unfoldable pub read_turn : Turn → Server rate → Loop × Server rate
  unfolding close read_frame
  read_turn turn w =
      if is_cancelled (w.world.manager.clients s.client)
      then (returned, close turn w)
      else if turn.allowed
      then elim turn.frame [
        | none ↦ (returned, close turn w)
        | some payload ↦ (reads_on, read_frame turn payload w)
      ]
      else (returned, close turn w)
