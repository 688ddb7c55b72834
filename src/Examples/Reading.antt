-- ===== src/Examples/Reading.antt =====
-- The theorems on the read loop, at the test data.
use krampus.Prelude.{true, false, none, some, ◌≡◌, refl, if◌then◌else◌, str_eq}
use krampus.Prelude.Int.{pos}
use krampus.Domain.Message.{Message, sent}
use krampus.Realtime.Client.{conn_id, websocket, new_client}
use krampus.Realtime.Manager.{new_manager, register}
use krampus.Realtime.Manager.Lookup.{registered, subscribed}
use krampus.Messaging.ReadPump.{
  Decoder, Session, Server, Turn, accept, claimed, read_frame, read_turn, is_cancelled,
}
use krampus.Messaging.ReadPump.Identity.{pretending, read_frame_identity}
use krampus.Messaging.ReadPump.Closing.{read_turn_closes}
use krampus.Examples.{lib, hello, ann, empty, lobby, world}
use krampus.Examples.Messaging.{rate, service, call}

abbrev ack_message : Message
ack_message = record hello { type = "ack_read" }

-- Three frames are understood.
abbrev decoder : Decoder
decoder = record {
  decode = λ s.
      if str_eq s "hello"
      then some hello
      else if str_eq s "forged"
      then some (pretending "m9" "bob" "cellar" (pos 7) hello)
      else if str_eq s "ack"
      then some ack_message
      else none;
  decode_ack = λ s. some (record { message_id = "m1"; status = sent; timestamp = 1 });
}

abbrev session : Session
session = record {
  client = 0;
  user_id = "ann";
  room_id = "lobby";
  trace_id = "";
  request_id = "";
  correlation_id = "";
}

abbrev server : Server rate
server = record { world = world; service = service; closed = false }

abbrev turn : Turn
turn = record {
  allowed = true;
  frame = some "hello";
  clock = λ n. n;
  uuid = "u1";
  ack_fault = none;
  call = call;
}

-- a turn in which the rate limit is exceeded
abbrev last_turn : Turn
last_turn = record turn { allowed = false }

read_frame_identity_example :
    (read_frame lib decoder session turn "hello" server
      ≡ read_frame lib decoder session turn "forged" server)
    × (read_frame lib decoder session turn "hello" server
        ≡ accept lib decoder session turn (claimed session turn hello) server)
    × ((claimed session turn hello).user_id ≡ session.user_id)
    × ((claimed session turn hello).room_id ≡ session.room_id)
    × ((claimed session turn hello).id ≡ turn.uuid)
read_frame_identity_example =
    read_frame_identity lib decoder session turn server "hello" "forged" hello "m9" "bob" "cellar"
      (pos 7) refl refl refl

read_turn_closes_example :
    let w = (read_turn lib decoder session last_turn server).1 in
    let m = w.world.manager in
    (w.closed ≡ true)
    × (is_cancelled (m.clients 0) ≡ true)
    × (registered "ann" (conn_id lib 0 (websocket ann)) m ≡ none)
    × (subscribed "lobby" "ann" (conn_id lib 0 (websocket ann)) m ≡ none)
unfolding read_turn ann new_client lobby empty new_manager register
read_turn_closes_example = read_turn_closes lib decoder session last_turn server ann refl refl refl
