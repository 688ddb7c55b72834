-- ===== src/Messaging/Record/Outcome.antt =====
-- What a call leaves in the tables.
use krampus.Prelude.{
  String, none, some, [], ◌∷◌, ◌++◌, ◌≡◌, inl, inr, Option-cases, Sum-cases, if◌then◌else◌,
}
use krampus.Prelude.Dict.{lookup, insert}
use krampus.Domain.Errors.{Error, Result, ok, err}
use krampus.Domain.Message.{Message, GoLib}
use krampus.Storage.Messages.{message_row, find_message, save_message, find_key, save_key}
use krampus.Storage.Outbox.{save_event}
use krampus.Messaging.Record.{
  Tables, Call, record_message, store, remember, announce, outbox_event, created_event,
}

-- The tables with the message, with its key too, and with its outbox event too.
abbrev pub with_message : GoLib → Call → Message → Tables → Tables
with_message lib env msg t = record t {
  messages = t.messages ++ message_row lib (env.clock 3) msg ∷ [];
  files = if t.has_file_store then t.files ++ msg ∷ [] else t.files;
}

abbrev pub with_key : GoLib → Call → Message → Tables → Tables
with_key lib env msg t = record (with_message lib env msg t) { keys = insert msg.id msg.id t.keys }

abbrev pub with_event : GoLib → Call → Message → String → Tables → Tables
with_event lib env msg payload t = record (with_key lib env msg t) {
  outbox = t.outbox ++ outbox_event lib env msg payload ∷ [];
  activities = t.activities ++ msg.user_id ∷ [];
}

-- The ends of `record_message`.
pub data Ends (lib : GoLib) (env : Call) (msg : Message) (t : Tables)
    : Result (Unit {0}) × Tables → Type 0 where
  duplicate : (id : String) → lookup msg.id t.keys ≡ some id → Ends lib env msg t (ok tt, t)
  refused : (e : Error) → Ends lib env msg t (err e, t)
  stored_only :
      (e : Error)
      → lookup msg.id t.keys ≡ none
      → Ends lib env msg t (err e, with_message lib env msg t)
  unannounced :
      (e : Error) → lookup msg.id t.keys ≡ none → Ends lib env msg t (err e, with_key lib env msg t)
  recorded :
      (payload : String)
      → lib.marshal_created (created_event lib msg) ≡ inr payload
      → lookup msg.id t.keys ≡ none
      → Ends lib env msg t (ok tt, with_event lib env msg payload t)

announce-Ends :
    (lib : GoLib) (env : Call) (msg : Message) (t : Tables)
    → lookup msg.id t.keys ≡ none
    → Ends lib env msg t (announce lib env msg (with_key lib env msg t))
unfolding announce save_event
announce-Ends lib env msg t fresh = elim (Sum-cases (lib.marshal_created (created_event lib msg))) [
  | inl (x, e) ↦ simp (e, announce) (unannounced _ fresh)
  | inr (payload, e) ↦ elim (Option-cases env.event_fault) [
    | inl f ↦ simp (e, f, announce, save_event) (recorded payload e fresh)
    | inr (x, f) ↦ simp (e, f, announce, save_event) (unannounced _ fresh)
  ]
]

remember-Ends :
    (lib : GoLib) (env : Call) (msg : Message) (t : Tables)
    → lookup msg.id t.keys ≡ none
    → Ends lib env msg t (remember lib env msg (with_message lib env msg t))
unfolding remember save_key
remember-Ends lib env msg t fresh = elim (Option-cases env.key_fault) [
  | inl e ↦ simp (e, fresh, remember, save_key) (announce-Ends lib env msg t fresh)
  | inr (x, e) ↦ simp (e, fresh, remember, save_key) (stored_only _ fresh)
]

store-Ends :
    (lib : GoLib) (env : Call) (msg : Message) (t : Tables)
    → lookup msg.id t.keys ≡ none
    → Ends lib env msg t (store lib env msg t)
unfolding store save_message
store-Ends lib env msg t fresh = elim (Option-cases (find_message msg.id t.messages)) [
  | inr (r, e) ↦ simp (e, store, save_message) (refused _)
  | inl e ↦ elim (Option-cases env.message_fault) [
    | inl f ↦ simp (e, f, store, save_message) (remember-Ends lib env msg t fresh)
    | inr (x, f) ↦ simp (e, f, store, save_message) (refused _)
  ]
]

-- Every call ends in one of five ways. The message is a duplicate, and nothing changes. It is refused
-- before anything is written. Or, if its id is no known key: the message is stored and the call fails;
-- it is stored with its key and the call fails; it is stored with its key and its outbox event, and
-- the call succeeds.
pub record_message-Ends :
    (lib : GoLib) (env : Call) (msg : Message) (t : Tables)
    → Ends lib env msg t (record_message lib env msg t)
unfolding record_message find_key
record_message-Ends lib env msg t = elim (Option-cases env.find_key_fault) [
  | inr (x, e) ↦ simp (e, record_message, find_key) (refused _)
  | inl e ↦ elim (Option-cases (lookup msg.id t.keys)) [
    | inr (id, f) ↦ simp (e, f, record_message, find_key) (duplicate id f)
    | inl f ↦ simp (e, f, record_message, find_key) (store-Ends lib env msg t f)
  ]
]
