-- ===== src/Examples/Messaging.antt =====
-- The theorems on users, on the message service and on the outbox, at the test data.
use krampus.Prelude.{
  ℕ, String, true, false, none, some, List, [], ◌∷◌, inl, ◌≡◌, refl, arith, In→contains,
}
use krampus.Prelude.Dict.{lookup}
use krampus.Prelude.Int.{pos}
use krampus.Domain.Errors.{ok, err, new_error, internal}
use krampus.Domain.Message.{Message, no_metadata}
use krampus.Domain.Room.{User, Room}
use krampus.Storage.Messages.{message_row, find_message, save_message, get_message}
use krampus.Storage.Outbox.{OutboxEvent}
use krampus.Chat.Users.{UserWorld, UserFaults}
use krampus.Messaging.Limits.{RateLib, RateLimiter}
use krampus.Messaging.Record.{Call, outbox_event}
use krampus.Messaging.Record.Outcome.{Ends, with_key, with_event}
use krampus.Messaging.Process.{Service, stamped, check_message, process}
use krampus.Messaging.Process.Ends.{process-Ends}
use krampus.Messaging.Process.Recorded.{IsRecorded, process-IsRecorded}
use krampus.Messaging.Process.Again.{process_loses_event, process_records_once}
use krampus.Messaging.Outbox.{OutboxWorld, Attempt, process_outbox}
use krampus.Messaging.Outbox.Batch.{get_message-save_message}
use krampus.Messaging.Outbox.Sent.{IsHonest}
use krampus.Messaging.Outbox.Safety.{process_outbox-IsHonest}
use krampus.Examples.{lib, hello, room}

abbrev user : User
user = record {
  id = 1;
  username = "ann";
  firstname = "Ann";
  lastname = "A";
  email = "ann@example.com";
  password_hash = "";
  avatar = "";
  two_fa_enabled = false;
  created_at = 0;
  last_active = 0;
  status = none;
  permissions = "read" ∷ [];
}

abbrev users : UserWorld
users = record { table = user ∷ []; cache = []; pending = [] }

abbrev user_faults : UserFaults
user_faults = record { cache_get = none; cache_write = none; db = none }

abbrev reading : List String
reading = "read" ∷ []

-- Buckets that always have a token.
abbrev pub rate : RateLib
rate = record { Limiter = ℕ; new_limiter = λ r b. b; allow = λ now l. (true, l) }

abbrev limiter : RateLimiter rate
limiter = record { limiters = ("1:text", 10) ∷ []; last_used = ("1:text", 5) ∷ [] }

abbrev from_one : Message
from_one = record hello { user_id = "1" }

abbrev open_room : Room
open_room = record room { members = "1" ∷ [] }

abbrev pub service : Service rate
service = record {
  limiter = limiter;
  users = users;
  rooms = record { table = ("lobby", open_room) ∷ []; cache = []; pending = [] };
  tables = record {
    messages = [];
    keys = [];
    outbox = [];
    has_file_store = true;
    files = [];
    activities = [];
  };
}

abbrev pub call : Call
call = record {
  clock = λ n. n;
  uuid = "u1";
  event_id = "e1";
  users = user_faults;
  rooms = record { cache_get = none; cache_write = none; db = none };
  find_key_fault = none;
  message_fault = none;
  key_fault = none;
  event_fault = none;
}

-- a call whose outbox event the database refuses
abbrev cut_off : Call
cut_off = record call { event_fault = some "timeout" }

service-IsRecorded : IsRecorded service.tables
unfolding lookup
service-IsRecorded = record { keys_stored = λ k v e. cc; events_keyed = tt }

process-Ends_example :
    let r = process lib call from_one service in
    Ends lib call (stamped call from_one) service.tables (r.0, r.1.tables)
process-Ends_example = process-Ends lib call from_one service

process-IsRecorded_example : IsRecorded (process lib call from_one service).1.tables
process-IsRecorded_example = process-IsRecorded lib call from_one service service-IsRecorded

-- the service with the key of the message
abbrev knowing : Service rate
knowing = record service { tables = with_key lib call from_one service.tables }

accepted : (check_message lib cut_off from_one service).0 ≡ ok tt
unfolding check_message lookup
accepted = ground (arith, In→contains "1" ("1" ∷ []) (inl refl))

process_loses_event_example :
    let (answer, w) = process lib cut_off from_one service in
    (answer ≡ err (new_error internal "failed to save outbox event"))
    × (w.tables ≡ with_key lib cut_off from_one service.tables)
    × ((later : Call) → (process lib later from_one w).1.tables ≡ w.tables)
unfolding lookup find_message
process_loses_event_example =
    process_loses_event lib cut_off from_one service "m1" "timeout" refl accepted refl refl refl
      refl refl refl refl

accepted_whole : (check_message lib call from_one service).0 ≡ ok tt
unfolding check_message lookup
accepted_whole = ground (arith, In→contains "1" ("1" ∷ []) (inl refl))

process_records_once_example :
    let (answer, w) = process lib call from_one service in
    (answer ≡ ok tt)
    × (w.tables ≡ with_event lib call from_one "m1" service.tables)
    × ((later : Call) → (process lib later from_one w).1.tables ≡ w.tables)
unfolding lookup find_message
process_records_once_example =
    process_records_once lib call from_one service "m1" refl accepted_whole refl refl refl refl refl
      refl refl

abbrev event : OutboxEvent
event = outbox_event lib call from_one "m1"

abbrev outbox : OutboxWorld
outbox = record { events = event ∷ []; messages = message_row lib 3 from_one ∷ []; published = [] }

abbrev attempt : Attempt
attempt = record {
  now = 9;
  load_fault = none;
  publish_fault = none;
  mark_fault = none;
  retry_fault = none;
}

process_outbox-IsHonest_example : IsHonest lib (process_outbox lib none (λ n. attempt) outbox)
process_outbox-IsHonest_example =
    process_outbox-IsHonest lib none (λ n. attempt) outbox
      (record { keyed = ((λ e. refl, tt), tt); honest = (inl refl, tt) })

abbrev listed : Message
listed = record from_one { payload = "[1,2]" }

get_message-save_message_example :
    get_message none "m1" (save_message lib none 3 listed []).1
    ≡ ok (record listed {
      payload = "[1, 2]";
      timestamp = pos 3;
      version = pos 0;
      metadata = no_metadata;
    })
unfolding find_message
get_message-save_message_example = get_message-save_message lib 3 listed [] refl
