-- ===== src/Realtime/Delivery.antt =====
-- Deliveries of WebSocketManager.go: `ProcessDelivery`, `sendSentAck`, `sendFailedAck`,
-- `deliveryWorker`, `HandleAck`. What a call cannot decide itself (the clock, the choice of a
-- `select`, an error of the database) is in `Conditions`.
pub mod Outcome
pub mod Attempts
pub mod Acks
use krampus.Prelude.{
  ℕ, suc, ◌+◌, ◌*◌, ◌^◌, String, Bool, true, false, List, [], ◌∷◌, leb, if◌then◌else◌,
}
use krampus.Prelude.Int.{ℤ, pos}
use krampus.Domain.Errors.{Error, Result, ok, err}
use krampus.Domain.Message.{
  Message, Metadata, Event, DeliveryJob, AckPayload, DeliveryStatus, sent, delivered, read, failed,
  GoLib, no_metadata, second,
}
use krampus.Storage.Fault.{Fault}
use krampus.Storage.Status.{StatusRow, update_status, mark_delivered, mark_read}
use krampus.Storage.RetryQueue.{RetryRow, DlqRow, enqueue, store_dlq}
use krampus.Realtime.Client.{
  TransportClient, WsClient, websocket, sse, get_user_id, get_room_id, safe_send, build_event,
}
use krampus.Realtime.Manager.{Manager, find_client}
use krampus.Realtime.Broadcast.{update}

-- The manager with the tables of its repositories.
pub record World : Type 0 where
  pub manager : Manager
  pub statuses : List StatusRow
  pub retries : List RetryRow
  pub dead : List DlqRow

pub record Conditions : Type 0 where
  -- the i-th reading of the clock
  pub clock : ℕ → ℕ
  pub pick_event : Bool
  pub pick_ack : Bool
  pub status_fault : Fault
  pub failed_fault : Fault
  pub retry_fault : Fault
  pub dead_fault : Fault

-- the acknowledgement that `sendSentAck` builds
unfoldable pub sent_ack : GoLib → (ℕ → ℕ) → TransportClient → Message → Message
sent_ack lib clock c msg = record {
  id = lib.format_time (clock 2);
  type = "ack_sent";
  user_id = get_user_id c;
  room_id = get_room_id c;
  timestamp = pos (clock 3);
  version = pos 0;
  payload = lib.marshal_ack (record { message_id = msg.id; status = sent; timestamp = clock 1 });
  metadata = no_metadata;
  signature = "";
}

abbrev pub or_same : TransportClient → Result TransportClient → TransportClient
or_same c (ok d) = d
or_same c (err e) = c

-- the end of `sendSentAck`: `if err == nil { _ = client.SafeSend(event) }`
unfoldable pub send_built : GoLib → Bool → WsClient → Result Event → TransportClient
unfolding safe_send
send_built lib pick c (err e) = websocket c
send_built lib pick c (ok event) = or_same (websocket c) (safe_send lib pick event (websocket c))

-- `sendSentAck`: what becomes of the client; its errors are dropped
unfoldable pub send_sent_ack : GoLib → Conditions → Message → TransportClient → TransportClient
unfolding sent_ack build_event send_built
send_sent_ack lib env msg (sse c) = sse c
send_sent_ack lib env msg (websocket c) =
    send_built lib env.pick_ack c
      (build_event lib (env.clock 4) (sent_ack lib env.clock (websocket c) msg))

-- the end of `ProcessDelivery`: the acknowledgement, and the status `sent`
unfoldable pub after_send : GoLib → Conditions → DeliveryJob → World → ℕ → TransportClient → World
unfolding send_sent_ack update update_status
after_send lib env job w c client = record w {
  manager = record (w.manager) {
    clients = update w.manager.clients c (send_sent_ack lib env job.message client);
  };
  statuses = (update_status env.status_fault job.message.id job.user_id sent w.statuses).1;
}

-- `ProcessDelivery`
unfoldable pub process_delivery :
    GoLib → Conditions → DeliveryJob → World → Result (Unit {0}) × World
unfolding find_client build_event safe_send after_send
process_delivery lib env job w = elim (find_client job.user_id job.client_id w.manager) [
  | err e ↦ (err e, w)
  | ok c ↦ elim (build_event lib (env.clock 0) job.message) [
    | err e ↦ (err e, w)
    | ok event ↦ elim (safe_send lib env.pick_event event (w.manager.clients c)) [
      | err e ↦ (err e, w)
      | ok client ↦ (ok tt, after_send lib env job w c client)
    ]
  ]
]

-- `sendFailedAck`: only the status table changes, the payload goes to the log
unfoldable pub send_failed_ack : Conditions → DeliveryJob → World → World
unfolding update_status
send_failed_ack env job w = record w {
  statuses = (update_status env.failed_fault job.message.id job.user_id failed w.statuses).1;
}

-- `maxRetryAttempts`
abbrev pub max_retry_attempts : ℕ
max_retry_attempts = 5

-- whether the goroutine of a worker goes on to the next job
pub data Worker : Type 0 where
  running stopped : Worker

abbrev pub worker_after : Result (Unit {0}) → Worker
worker_after (ok u) = running
worker_after (err e) = stopped

-- `job.Attempt++`, and `job.NextRetryAt = now + time.Second << job.Attempt`
unfoldable pub bump_job : ℕ → DeliveryJob → DeliveryJob
bump_job now job = record job {
  attempt = suc job.attempt;
  next_retry_at = now + second * 2 ^ suc job.attempt;
}

-- what `deliveryWorker` does with a job whose delivery failed
unfoldable pub after_failure : GoLib → Conditions → DeliveryJob → World → Worker × World
unfolding send_failed_ack store_dlq enqueue bump_job
after_failure lib env job w =
    let bumped = bump_job (env.clock 5) job in
    let spent = record job { attempt = suc job.attempt } in
    let w' = send_failed_ack env spent w in
    let buried = store_dlq lib env.dead_fault spent "max retry attempts reached" w'.dead in
    let (answer, rows) = enqueue lib env.retry_fault bumped w.retries in
    if leb max_retry_attempts bumped.attempt
    then (running, record w' { dead = buried.1 })
    else (worker_after answer, record w { retries = rows })

-- the body of the loop of `deliveryWorker`
unfoldable pub work : GoLib → Conditions → DeliveryJob → World → Worker × World
unfolding process_delivery after_failure
work lib env job w =
    let (answer, w') = process_delivery lib env job w in
    elim answer [ ok u ↦ (running, w') | err e ↦ after_failure lib env job w' ]

-- `HandleAck` at the time `now`
unfoldable pub handle_ack : Fault → ℕ → String → AckPayload → World → Result (Unit {0}) × World
unfolding mark_delivered mark_read
handle_ack fault now user ack w = elim ack.status [
  | delivered ↦
      let (answer, rows) = mark_delivered fault ack.message_id user now w.statuses in
      (answer, record w { statuses = rows })
  | read ↦
      let (answer, rows) = mark_read fault ack.message_id user now w.statuses in
      (answer, record w { statuses = rows })
  | _ ↦ (ok tt, w)
]
