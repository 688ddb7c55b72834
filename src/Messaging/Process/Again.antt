-- ===== src/Messaging/Process/Again.antt =====
-- A message that comes again.
use krampus.Prelude.{String, false, none, some, ◌≡◌, refl, ◌∙◌, ap, inr, subst}
use krampus.Prelude.Int.{is_zero}
use krampus.Prelude.Dict.{lookup, lookup-insert_self}
use krampus.Domain.Errors.{Result, ok, err, new_error, internal}
use krampus.Domain.Message.{Message, GoLib}
use krampus.Storage.Messages.{find_message, save_message, find_key, save_key}
use krampus.Storage.Outbox.{save_event}
use krampus.Messaging.Limits.{RateLib}
use krampus.Messaging.Record.{
  Tables, Call, record_message, store, remember, announce, created_event,
}
use krampus.Messaging.Record.Outcome.{
  Ends, duplicate, refused, stored_only, unannounced, recorded, with_key, with_event,
}
use krampus.Messaging.Process.{Service, stamped, check_message, process}
use krampus.Messaging.Process.Ends.{process-Ends, check_message-tables}

Ends-known :
    (lib : GoLib) (env : Call) (msg : Message) (t : Tables) (r : Result (Unit {0})) (t' : Tables)
    (v : String)
    → Ends lib env msg t (r, t')
    → lookup msg.id t.keys ≡ some v
    → t' ≡ t
Ends-known lib env msg t r t' v (duplicate id e) k = refl
Ends-known lib env msg t r t' v (refused e) k = refl
Ends-known lib env msg t r t' v (stored_only e fresh) k = cc
Ends-known lib env msg t r t' v (unannounced e fresh) k = cc
Ends-known lib env msg t r t' v (recorded payload coded fresh) k = cc

-- A message whose id is a known key changes no table, whatever else happens in the call.
pub process_duplicate :
    (lib : GoLib) {rate : RateLib} (env : Call) (msg : Message) (w : Service rate) (v : String)
    → lookup (stamped env msg).id w.tables.keys ≡ some v
    → (process lib env msg w).1.tables ≡ w.tables
process_duplicate lib env msg w v known =
    Ends-known lib env (stamped env msg) w.tables _ _ v (process-Ends lib env msg w) known

first_writes :
    (lib : GoLib) (env : Call) (msg : Message) (t : Tables) (payload f : String)
    → env.find_key_fault ≡ none
    → env.message_fault ≡ none
    → env.key_fault ≡ none
    → env.event_fault ≡ some f
    → lookup msg.id t.keys ≡ none
    → find_message msg.id t.messages ≡ none
    → lib.marshal_created (created_event lib msg) ≡ inr payload
    → record_message lib env msg t
      ≡ (err (new_error internal "failed to save outbox event"), with_key lib env msg t)
unfolding record_message store remember announce save_event save_key save_message find_key
first_writes lib env msg t payload f a b c d fresh unsaved coded = simp (
  a, b, c, d, fresh, unsaved, coded, record_message, find_key, store, save_message, remember,
  save_key, announce, save_event,
)

dated_message : (env : Call) (msg : Message) → is_zero msg.timestamp ≡ false → stamped env msg ≡ msg
unfolding stamped
dated_message env msg h = rw (h, stamped) refl

-- What an accepted message writes.
accepted_stamped :
    (lib : GoLib) {rate : RateLib} (env : Call) (msg : Message) (w : Service rate)
    → (check_message lib env (stamped env msg) w).0 ≡ ok tt
    → ((process lib env msg w).0 ≡ (record_message lib env (stamped env msg) w.tables).0)
      × ((process lib env msg w).1.tables ≡ (record_message lib env (stamped env msg) w.tables).1)
unfolding process
accepted_stamped lib env msg w accepted =
    rw (accepted, process) (rw (check_message-tables lib env (stamped env msg) w) (refl, refl))

accepted_process :
    (lib : GoLib) {rate : RateLib} (env : Call) (msg : Message) (w : Service rate)
    → is_zero msg.timestamp ≡ false
    → (check_message lib env msg w).0 ≡ ok tt
    → ((process lib env msg w).0 ≡ (record_message lib env msg w.tables).0)
      × ((process lib env msg w).1.tables ≡ (record_message lib env msg w.tables).1)
accepted_process lib env msg w dated accepted =
    subst
      (λ m.
        ((process lib env msg w).0 ≡ (record_message lib env m w.tables).0)
        × ((process lib env msg w).1.tables ≡ (record_message lib env m w.tables).1))
      (dated_message env msg dated)
      (accepted_stamped lib env msg w (rw (dated_message env msg dated) accepted))

-- An accepted, new message whose outbox event the database refuses is lost to the outbox: the call
-- fails with the message and its key stored, and no later call with the same message, whatever
-- happens in it, changes a table.
pub process_loses_event :
    (lib : GoLib) {rate : RateLib} (env : Call) (msg : Message) (w : Service rate)
    (payload f : String)
    → is_zero msg.timestamp ≡ false
    → (check_message lib env msg w).0 ≡ ok tt
    → env.find_key_fault ≡ none
    → env.message_fault ≡ none
    → env.key_fault ≡ none
    → env.event_fault ≡ some f
    → lookup msg.id w.tables.keys ≡ none
    → find_message msg.id w.tables.messages ≡ none
    → lib.marshal_created (created_event lib msg) ≡ inr payload
    → let (answer, w') = process lib env msg w in
      (answer ≡ err (new_error internal "failed to save outbox event"))
      × (w'.tables ≡ with_key lib env msg w.tables)
      × ((later : Call) → (process lib later msg w').1.tables ≡ w'.tables)
process_loses_event lib env msg w payload f dated accepted a b c d fresh unsaved coded =
    let written = first_writes lib env msg w.tables payload f a b c d fresh unsaved coded in
    let first = accepted_process lib env msg w dated accepted in
    let left = first.1 ∙ ap (λ r. r.1) written in
    (
      first.0 ∙ ap (λ r. r.0) written,
      left,
      λ later. process_duplicate lib later msg (process lib env msg w).1 msg.id (
          rw (dated_message later msg dated, left)
            (lookup-insert_self msg.id msg.id w.tables.keys)),
    )

all_writes :
    (lib : GoLib) (env : Call) (msg : Message) (t : Tables) (payload : String)
    → env.find_key_fault ≡ none
    → env.message_fault ≡ none
    → env.key_fault ≡ none
    → env.event_fault ≡ none
    → lookup msg.id t.keys ≡ none
    → find_message msg.id t.messages ≡ none
    → lib.marshal_created (created_event lib msg) ≡ inr payload
    → record_message lib env msg t ≡ (ok tt, with_event lib env msg payload t)
unfolding record_message store remember announce save_event save_key save_message find_key
all_writes lib env msg t payload a b c d fresh unsaved coded = simp (
  a, b, c, d, fresh, unsaved, coded, record_message, find_key, store, save_message, remember,
  save_key, announce, save_event,
)

-- An accepted, new message of a call in which no table fails is recorded: the call succeeds, and
-- leaves the message, its key and its outbox event, each once; the same message, in any later call,
-- changes no table.
pub process_records_once :
    (lib : GoLib) {rate : RateLib} (env : Call) (msg : Message) (w : Service rate)
    (payload : String)
    → is_zero msg.timestamp ≡ false
    → (check_message lib env msg w).0 ≡ ok tt
    → env.find_key_fault ≡ none
    → env.message_fault ≡ none
    → env.key_fault ≡ none
    → env.event_fault ≡ none
    → lookup msg.id w.tables.keys ≡ none
    → find_message msg.id w.tables.messages ≡ none
    → lib.marshal_created (created_event lib msg) ≡ inr payload
    → let (answer, w') = process lib env msg w in
      (answer ≡ ok tt)
      × (w'.tables ≡ with_event lib env msg payload w.tables)
      × ((later : Call) → (process lib later msg w').1.tables ≡ w'.tables)
process_records_once lib env msg w payload dated accepted a b c d fresh unsaved coded =
    let written = all_writes lib env msg w.tables payload a b c d fresh unsaved coded in
    let first = accepted_process lib env msg w dated accepted in
    let left = first.1 ∙ ap (λ r. r.1) written in
    (
      first.0 ∙ ap (λ r. r.0) written,
      left,
      λ later. process_duplicate lib later msg (process lib env msg w).1 msg.id (
          rw (dated_message later msg dated, left)
            (lookup-insert_self msg.id msg.id w.tables.keys)),
    )
