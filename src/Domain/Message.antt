-- ===== src/Domain/Message.antt =====
-- internal/message/domain: messages, events, delivery jobs. Times are nanoseconds since the epoch.
use krampus.Prelude.{
  ◌⊎◌, inl, inr, ℕ, ◌+◌, ◌*◌, String, Bool, ◌||◌, Option, [], none, some, str_eq, if◌then◌else◌,
}
use krampus.Prelude.Dict.{Dict}
use krampus.Prelude.Int.{ℤ, pos, is_non_positive, is_above}
use krampus.Domain.Errors.{Error, plain, Result, ok, err}

pub record Metadata : Type 0 where
  pub trace_id : String
  pub request_id : String
  pub correlation_id : String
  pub version : ℤ
  pub compression : String
  pub encryption : String
  pub headers : Dict String

-- `BaseMessage`
pub record Message : Type 0 where
  pub id : String
  pub type : String
  pub user_id : String
  pub room_id : String
  pub timestamp : ℤ
  pub version : ℤ
  pub payload : String
  pub metadata : Metadata
  pub signature : String

pub record Event : Type 0 where
  pub id : String
  pub sequence : ℕ
  pub type : String
  pub aggregate_id : String
  pub user_id : String
  pub room_id : String
  pub timestamp : ℤ
  pub payload : String

pub data DeliveryStatus : Type 0 where
  sent delivered read failed : DeliveryStatus

pub record DeliveryJob : Type 0 where
  pub message : Message
  pub client_id : String
  pub user_id : String
  pub room_id : String
  pub attempt : ℕ
  pub next_retry_at : ℕ

pub record AckPayload : Type 0 where
  pub message_id : String
  pub status : DeliveryStatus
  pub timestamp : ℕ

-- `MessageCreatedEvent` of outbox.go
pub record CreatedEvent : Type 0 where
  pub message_id : String
  pub room_id : String
  pub user_id : String

-- the zero value
abbrev pub no_metadata : Metadata
no_metadata = record {
  trace_id = "";
  request_id = "";
  correlation_id = "";
  version = pos 0;
  compression = "";
  encryption = "";
  headers = [];
}

-- What the program uses of Go's standard library: `encoding/json` on messages and acknowledgements,
-- and the texts of numbers and times. The left side of a sum is the text of the error.
pub record GoLib : Type 0 where
  pub marshal : Message → String ⊎ String
  pub unmarshal : String → String ⊎ Message
  pub marshal_created : CreatedEvent → String ⊎ String
  pub unmarshal_created : String → String ⊎ CreatedEvent
  pub marshal_ack : AckPayload → String
  pub format_int : ℕ → String
  -- a payload as its JSONB column gives it back: PostgreSQL keeps neither blanks, nor the order of keys, nor
  -- a key that comes twice; what is no JSON it refuses, which is a fault of the statement
  pub jsonb : String → String
  -- `strconv.ParseInt(s, 10, 64)`; `none` is an error or a negative number, which no row has as its id
  pub parse_int : String → Option ℕ
  pub format_time : ℕ → String

-- an error of `encoding/json` is not an `*AppError`
abbrev pub from_json : {A : Type 0} → String ⊎ A → Result A
from_json (inl e) = err (plain e)
from_json (inr a) = ok a

abbrev pub marshal_message : GoLib → Message → Result String
marshal_message lib m = from_json (lib.marshal m)

abbrev pub unmarshal_message : GoLib → String → Result Message
unmarshal_message lib payload = from_json (lib.unmarshal payload)

-- A duration in nanoseconds.
abbrev pub second : ℕ
second = 1000000000

abbrev pub minute : ℕ
minute = 60 * 1000000000

-- `time.Now().Add(5*time.Minute)` of `Validate`
abbrev pub clock_skew : ℕ
clock_skew = 5 * minute

-- `Validate` at the time `now`
unfoldable pub validate : ℕ → Message → Option Error
validate now m =
    if str_eq m.id "" || (str_eq m.user_id "" || str_eq m.room_id "")
    then some (plain "missing required fields")
    else if is_non_positive m.timestamp
    then some (plain "invalid timestamp")
    else if is_above m.timestamp (now + clock_skew)
    then some (plain "invalid timestamp")
    else none

-- `SetTimestamp` at the time `now`; `uuid` is the text of the new UUID
unfoldable pub set_timestamp : ℕ → String → Message → Message
set_timestamp now uuid m = record m { timestamp = pos now; id = uuid }

-- `IsRealtimeOnly`
unfoldable pub is_realtime_only : String → Bool
is_realtime_only t =
    str_eq t "typing"
    || (str_eq t "video_call"
        || (str_eq t "cursor"
            || (str_eq t "presence_realtime" || (str_eq t "game" || str_eq t "webrtc_signal"))))

-- `ToEvent`
unfoldable pub to_event : GoLib → ℕ → Message → Result Event
to_event lib sequence m = elim (marshal_message lib m) [
  | err e ↦ err e
  | ok payload ↦ ok (record {
    id = m.id;
    sequence = sequence;
    type = m.type;
    aggregate_id = m.room_id;
    user_id = m.user_id;
    room_id = m.room_id;
    timestamp = m.timestamp;
    payload = payload;
  })
]
