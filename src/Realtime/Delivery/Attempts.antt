-- ===== src/Realtime/Delivery/Attempts.antt =====
-- What `deliveryWorker` does with a job whose delivery failed.
use krampus.Prelude.{
  Option-cases, Bool-cases, leb, ℕ, suc, ◌+◌, ◌*◌, ◌^◌, ◌≤◌, ◌<◌, ◌≡◌, String, List, [], ◌∷◌, ◌++◌,
  arith, some, none, inl, inr, All, All-append,
}
use krampus.Domain.Errors.{Error, ok, err, Result-cases}
use krampus.Domain.Message.{DeliveryJob, GoLib, marshal_message, failed, second}
use krampus.Storage.Status.{update_status}
use krampus.Storage.RetryQueue.{RetryRow, DlqRow, enqueue}
use krampus.Realtime.Delivery.{
  World, Conditions, running, stopped, process_delivery, work, after_failure, bump_job,
  max_retry_attempts,
}
use krampus.Realtime.Delivery.Outcome.{process_delivery_error}

-- the row that a job leaves in the retry table
abbrev pub retry_row : DeliveryJob → String → ℕ → RetryRow
retry_row job payload now = record {
  message_id = job.message.id;
  user_id = job.user_id;
  room_id = job.room_id;
  payload = payload;
  attempt = suc job.attempt;
  next_retry_at = now + second * 2 ^ suc job.attempt;
}

-- the row that a job leaves in the dead-letter table
abbrev pub dead_row : DeliveryJob → String → String → DlqRow
dead_row job payload reason = record {
  message_id = job.message.id;
  user_id = job.user_id;
  room_id = job.room_id;
  payload = payload;
  reason = reason;
}

work-after_failure :
    (lib : GoLib) (env : Conditions) (job : DeliveryJob) (w : World) (e : Error)
    → (process_delivery lib env job w).0 ≡ err e
    → work lib env job w ≡ after_failure lib env job w
unfolding work
work-after_failure lib env job w e h =
    let same = process_delivery_error lib env job w e h in ground arith

after_failure_cases :
    (lib : GoLib) (env : Conditions) (job : DeliveryJob) (w : World) (payload : String)
    → lib.marshal job.message ≡ inr payload
    → (suc job.attempt < max_retry_attempts
        → env.retry_fault ≡ none
        → after_failure lib env job w
          ≡ (running, record w { retries = w.retries ++ retry_row job payload (env.clock 5) ∷ [] }))
      × (suc job.attempt < max_retry_attempts
          → (f : String) → env.retry_fault ≡ some f
          → after_failure lib env job w ≡ (stopped, w))
      × (max_retry_attempts ≤ suc job.attempt
          → env.dead_fault ≡ none
          → after_failure lib env job w ≡ (
            running,
            record w {
              statuses =
                  (update_status env.failed_fault job.message.id job.user_id failed w.statuses).1;
              dead = w.dead ++ dead_row job payload "max retry attempts reached" ∷ [];
            },
          ))
unfolding after_failure
after_failure_cases lib env job w payload coded =
    (λ h f. ground arith, λ h f g. ground arith, λ h f. ground arith)

-- A failed delivery of a message that encodes has one of three ends. Below the limit of attempts
-- the job goes to the end of the retry table with its attempt counted, due `2 ^ attempt` seconds
-- from now; if the table refuses it there, nothing is written and the worker stops for good; at the
-- limit the status becomes `failed` and the job goes to the end of the dead-letter table, if that
-- table accepts it. In no case does a client or the registry change.
pub work_failed :
    (lib : GoLib) (env : Conditions) (job : DeliveryJob) (w : World) (payload : String) (e : Error)
    → (process_delivery lib env job w).0 ≡ err e
    → lib.marshal job.message ≡ inr payload
    → (suc job.attempt < max_retry_attempts
        → env.retry_fault ≡ none
        → work lib env job w
          ≡ (running, record w { retries = w.retries ++ retry_row job payload (env.clock 5) ∷ [] }))
      × (suc job.attempt < max_retry_attempts
          → (f : String) → env.retry_fault ≡ some f
          → work lib env job w ≡ (stopped, w))
      × (max_retry_attempts ≤ suc job.attempt
          → env.dead_fault ≡ none
          → work lib env job w ≡ (
            running,
            record w {
              statuses =
                  (update_status env.failed_fault job.message.id job.user_id failed w.statuses).1;
              dead = w.dead ++ dead_row job payload "max retry attempts reached" ∷ [];
            },
          ))
work_failed lib env job w payload e h coded =
    rw (work-after_failure lib env job w e h) (after_failure_cases lib env job w payload coded)

-- A row of the retry table has been tried at least once and fewer times than the limit.
abbrev pub IsPending : RetryRow → Type 0
IsPending r = (1 ≤ r.attempt) × (r.attempt < max_retry_attempts)

enqueue-IsPending :
    (lib : GoLib) (env : Conditions) (job : DeliveryJob) (rows : List RetryRow)
    → 1 ≤ job.attempt
    → job.attempt < max_retry_attempts
    → All IsPending rows
    → All IsPending (enqueue lib env.retry_fault job rows).1
unfolding enqueue
enqueue-IsPending lib env job rows h k p = elim (Result-cases (marshal_message lib job.message)) [
  | inl (e, f) ↦ rw (f, enqueue) p
  | inr (payload, f) ↦ elim (Option-cases env.retry_fault) [
    | inl g ↦ rw (f, g, enqueue) (All-append IsPending rows _ p ((h, k), tt))
    | inr (x, g) ↦ rw (f, g, enqueue) p
  ]
]

after_failure-IsPending :
    (lib : GoLib) (env : Conditions) (job : DeliveryJob) (w : World)
    → All IsPending w.retries
    → All IsPending (after_failure lib env job w).1.retries
unfolding after_failure
after_failure-IsPending lib env job w p =
    elim (Bool-cases (leb max_retry_attempts (suc job.attempt))) [
      | inl last ↦ rw (last, after_failure) p
      | inr more ↦
          rw (more, after_failure)
            (enqueue-IsPending lib env (bump_job (env.clock 5) job) w.retries
              (unfold bump_job in omega arith) (unfold bump_job in ground arith) p)
    ]

retries-process_delivery :
    (lib : GoLib) (env : Conditions) (job : DeliveryJob) (w : World)
    → (process_delivery lib env job w).1.retries ≡ w.retries
unfolding process_delivery
retries-process_delivery lib env job w = ground arith

work_delivered :
    (lib : GoLib) (env : Conditions) (job : DeliveryJob) (w : World) (u : Unit {0})
    → (process_delivery lib env job w).0 ≡ ok u
    → work lib env job w ≡ (running, (process_delivery lib env job w).1)
unfolding work
work_delivered lib env job w u h = ground arith

-- Whatever a worker does with a job, every row of the retry table has been tried at least once and
-- fewer times than the limit, if that held before.
pub work-IsPending :
    (lib : GoLib) (env : Conditions) (job : DeliveryJob) (w : World)
    → All IsPending w.retries
    → All IsPending (work lib env job w).1.retries
work-IsPending lib env job w p = elim (Result-cases (process_delivery lib env job w).0) [
  | inl (e, h) ↦ rw (work-after_failure lib env job w e h) (after_failure-IsPending lib env job w p)
  | inr (u, h) ↦ rw (work_delivered lib env job w u h, retries-process_delivery lib env job w) p
]
