-- ===== src/Messaging/Process/Recorded.antt =====
-- How the message, key and outbox tables belong together.
use krampus.Prelude.{
  String, true, false, some, List, [], ◌∷◌, ◌++◌, ◌≡◌, ◌⊎◌, inl, inr, arith, Bool-cases, str_eq,
  str_eq→eq, str_eq_refl, All, All-append, subst,
}
use krampus.Prelude.Dict.{Dict, lookup, insert, lookup-insert, lookup-insert_self}
use krampus.Domain.Errors.{Result}
use krampus.Domain.Message.{Message, GoLib}
use krampus.Storage.Messages.{MessageRow, message_row, find_message}
use krampus.Storage.Outbox.{OutboxEvent}
use krampus.Messaging.Limits.{RateLib}
use krampus.Messaging.Record.{Tables, Call}
use krampus.Messaging.Record.Outcome.{
  Ends, duplicate, refused, stored_only, unannounced, recorded, with_message, with_key,
}
use krampus.Messaging.Process.{Service, stamped, process}
use krampus.Messaging.Process.Ends.{process-Ends}

-- Every key is that of a stored message, and every outbox event is of a message with a key.
pub record IsRecorded (t : Tables) : Type 0 where
  pub keys_stored :
      (k v : String)
      → lookup k t.keys ≡ some v
      → (r : MessageRow) × (find_message k t.messages ≡ some r)
  pub events_keyed : All (λ e. (v : String) × (lookup e.aggregate_id t.keys ≡ some v)) t.outbox

-- A row that is found is found in a longer table; the last row is found by its id.
find_message-append :
    (k : String) (rows : List MessageRow) (new r : MessageRow)
    → find_message k rows ≡ some r
    → find_message k (rows ++ new ∷ []) ≡ some r
unfolding find_message
find_message-append k [] new r e = cc
find_message-append k (s ∷ rows) new r e = ground (arith, find_message-append k rows new r)

find_message-new :
    (rows : List MessageRow) (new : MessageRow)
    → (r : MessageRow) × (find_message new.id (rows ++ new ∷ []) ≡ some r)
unfolding find_message
find_message-new [] new = (new, ground (arith, str_eq_refl new.id))
find_message-new (s ∷ rows) new = elim (Bool-cases (str_eq s.id new.id)) [
  | inl e ↦ (s, ground (arith, e))
  | inr e ↦ let (r, h) = find_message-new rows new in (r, ground (arith, e, h))
]

with_message-stored :
    (lib : GoLib) (env : Call) (msg : Message) (t : Tables) (k v : String)
    → IsRecorded t
    → lookup k t.keys ≡ some v
    → (r : MessageRow) × (find_message k (with_message lib env msg t).messages ≡ some r)
with_message-stored lib env msg t k v h e =
    let (r, f) = h.keys_stored k v e in
    (r, find_message-append k t.messages (message_row lib (env.clock 3) msg) r f)

with_key-stored :
    (lib : GoLib) (env : Call) (msg : Message) (t : Tables) (k v : String)
    → IsRecorded t
    → lookup k (with_key lib env msg t).keys ≡ some v
    → (r : MessageRow) × (find_message k (with_message lib env msg t).messages ≡ some r)
with_key-stored lib env msg t k v h e = elim (Bool-cases (str_eq msg.id k)) [
  | inl same ↦
      subst
        (λ j. (r : MessageRow) × (find_message j (with_message lib env msg t).messages ≡ some r))
        (str_eq→eq msg.id k same) (find_message-new t.messages (message_row lib (env.clock 3) msg))
  | inr other ↦
      with_message-stored lib env msg t k v h
        (ground (arith, other, lookup-insert msg.id k msg.id t.keys))
]

keyed-insert :
    (id : String) (keys : Dict String) (es : List OutboxEvent)
    → All (λ e. (v : String) × (lookup e.aggregate_id keys ≡ some v)) es
    → All (λ e. (v : String) × (lookup e.aggregate_id (insert id id keys) ≡ some v)) es
keyed-insert id keys [] h = tt
keyed-insert id keys (e ∷ es) h =
    (still_keyed (Bool-cases (str_eq id e.aggregate_id)) h.0, keyed-insert id keys es h.1)
  where
    still_keyed :
        (str_eq id e.aggregate_id ≡ true) ⊎ (str_eq id e.aggregate_id ≡ false)
        → (v : String) × (lookup e.aggregate_id keys ≡ some v)
        → (v : String) × (lookup e.aggregate_id (insert id id keys) ≡ some v)
    still_keyed (inl same) p = (id, ground (arith, same, lookup-insert id e.aggregate_id id keys))
    still_keyed (inr other) p =
        (p.0, ground (arith, other, p.1, lookup-insert id e.aggregate_id id keys))

Ends-IsRecorded :
    (lib : GoLib) (env : Call) (msg : Message) (t : Tables) (r : Result (Unit {0})) (t' : Tables)
    → Ends lib env msg t (r, t')
    → IsRecorded t
    → IsRecorded t'
Ends-IsRecorded lib env msg t r t' (duplicate id e) h = h
Ends-IsRecorded lib env msg t r t' (refused e) h = h
Ends-IsRecorded lib env msg t r t' (stored_only e fresh) h = record {
  keys_stored = λ k v f. with_message-stored lib env msg t k v h f;
  events_keyed = h.events_keyed;
}
Ends-IsRecorded lib env msg t r t' (unannounced e fresh) h = record {
  keys_stored = λ k v f. with_key-stored lib env msg t k v h f;
  events_keyed = keyed-insert msg.id t.keys t.outbox h.events_keyed;
}
Ends-IsRecorded lib env msg t r t' (recorded payload coded fresh) h = record {
  keys_stored = λ k v f. with_key-stored lib env msg t k v h f;
  events_keyed =
      All-append _ t.outbox _ (keyed-insert msg.id t.keys t.outbox h.events_keyed)
        ((msg.id, lookup-insert_self msg.id msg.id t.keys), tt);
}

-- `Process` keeps that every idempotency key is that of a stored message, and every outbox event that
-- of a message with a key, wherever a call ends.
pub process-IsRecorded :
    (lib : GoLib) {rate : RateLib} (env : Call) (msg : Message) (w : Service rate)
    → IsRecorded w.tables
    → IsRecorded (process lib env msg w).1.tables
process-IsRecorded lib env msg w h =
    Ends-IsRecorded lib env (stamped env msg) w.tables _ _ (process-Ends lib env msg w) h
