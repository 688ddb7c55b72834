-- ===== src/Examples.antt =====
-- Test data: a library, messages, clients and tables on which the theorems are applied.
pub mod Realtime
pub mod Rooms
pub mod Spam
pub mod Messaging
pub mod Reading
pub mod Events
pub mod Accounts
pub mod Files
pub mod Search
pub mod Sync
pub mod Scheduling
use krampus.Prelude.{
  ℕ, String, Bool, true, false, List, [], ◌∷◌, none, some, inl, inr, if◌then◌else◌, ◌==◌, str_eq,
}
use krampus.Prelude.Int.{ℤ, pos}
use krampus.Domain.Message.{Metadata, Message, DeliveryJob, AckPayload, GoLib}
use krampus.Domain.Room.{Room, RoomSettings}
use krampus.Realtime.Client.{
  TransportClient, WsClient, SseClient, websocket, sse, new_client, new_sse_client,
}
use krampus.Realtime.Manager.{Manager, new_manager, register}
use krampus.Realtime.Delivery.{World, Conditions}

abbrev pub metadata : Metadata
metadata = record {
  trace_id = "";
  request_id = "";
  correlation_id = "";
  version = pos 1;
  compression = "";
  encryption = "";
  headers = [];
}

abbrev pub hello : Message
hello = record {
  id = "m1";
  type = "text";
  user_id = "ann";
  room_id = "lobby";
  timestamp = pos 5;
  version = pos 1;
  payload = "{}";
  metadata = metadata;
  signature = "";
}

-- A message is encoded by its id; every text decodes to a message with that text as its id.
abbrev pub lib : GoLib
lib = record {
  marshal = λ m. inr m.id;
  unmarshal = λ s. inr (record hello { id = s });
  marshal_created = λ e. inr e.message_id;
  unmarshal_created = λ s. inr (record { message_id = s; room_id = "lobby"; user_id = "1" });
  marshal_ack = λ a. a.message_id;
  jsonb = λ s. if str_eq s "[1,2]" then "[1, 2]" else s;
  format_int = λ n. if n == 0 then "0" else if n == 1 then "1" else "2";
  parse_int = λ s. if str_eq s "1" then some 1 else none;
  format_time = λ n. "t";
}

abbrev pub ann : WsClient
unfolding new_client
ann = new_client "ann" "lobby" "10.0.0.1:80"

abbrev pub bob : SseClient
unfolding new_sse_client
bob = new_sse_client "bob" "lobby"

abbrev pub heap : ℕ → TransportClient
heap n = if n == 0 then websocket ann else sse bob

abbrev pub empty : Manager
unfolding new_manager
empty = new_manager heap

-- the manager after client 0 has connected
abbrev pub lobby : Manager
unfolding register
lobby = register lib 0 0 0 empty

abbrev pub job : DeliveryJob
job = record {
  message = hello;
  client_id = "10.0.0.1:80-ann";
  user_id = "ann";
  room_id = "lobby";
  attempt = 0;
  next_retry_at = 0;
}

abbrev pub world : World
world = record { manager = lobby; statuses = []; retries = []; dead = [] }

abbrev pub empty_world : World
empty_world = record world { manager = empty }

abbrev pub conditions : Conditions
conditions = record {
  clock = λ n. n;
  pick_event = true;
  pick_ack = true;
  status_fault = none;
  failed_fault = none;
  retry_fault = none;
  dead_fault = none;
}

abbrev pub settings : RoomSettings
settings = record {
  read_only = true;
  moderate_msgs = false;
  allow_files = false;
  max_members = 10;
  auto_archive = false;
}

abbrev pub room : Room
room = record {
  id = "lobby";
  type = "group";
  owner_id = "ann";
  name = "Lobby";
  members = "ann" ∷ "bob" ∷ [];
  created_at = 1;
  updated_at = 1;
  settings = settings;
  avatar = "";
}
