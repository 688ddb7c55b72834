-- ===== src/Messaging/Retry.antt =====
-- internal/message/service/retryWorker.go and pkg/retry/backoff.go.
pub mod Unreachable
use krampus.Prelude.{
  ℕ, suc, ◌+◌, ◌*◌, ◌/◌, ◌%◌, ◌^◌, ◌==◌, String, Bool, true, false, List, [], ◌∷◌, leb,
  if◌then◌else◌,
}
use krampus.Domain.Errors.{Error, app, plain, Result, ok, err, is_retryable, error_text}
use krampus.Domain.Message.{DeliveryJob, GoLib, second}
use krampus.Storage.Fault.{Fault}
use krampus.Storage.RetryQueue.{RetryRow, DlqRow, enqueue, get_ready_jobs, delete_job, store_dlq}
use krampus.Realtime.Delivery.{World, Conditions, process_delivery}

-- What one round of the loop cannot decide itself; the random numbers are those of `rand.Intn(1000)`
-- and of `rand.Int63n`, taken modulo their bounds.
pub record Round : Type 0 where
  pub delivery : Conditions
  pub backoff_random : ℕ
  pub jitter_random : ℕ
  pub now : ℕ
  pub store_fault : Fault
  pub delete_fault : Fault
  pub enqueue_fault : Fault

-- `ExponentialBackoff`: 2^attempt seconds and up to 999 milliseconds
unfoldable pub exponential_backoff : ℕ → ℕ → ℕ
exponential_backoff random attempt = second * 2 ^ attempt + random % 1000 * 1000000

-- `base + jitter`, with the jitter below half the base
unfoldable pub retry_delay : Round → ℕ → ℕ
unfolding exponential_backoff
retry_delay r attempt =
    let base = exponential_backoff r.backoff_random attempt in base + r.jitter_random % (base / 2)

-- `maxAttempts`
abbrev pub max_attempts : ℕ
max_attempts = 5

-- `_ = w.repo.Delete(...)`
unfoldable pub forget : Round → DeliveryJob → World → World
unfolding delete_job
forget r job w = record w {
  retries = (delete_job r.delete_fault job.message.id job.user_id w.retries).1;
}

-- `w.dlqRepo.Store(...)`, whose error goes to the log, and `Delete`
unfoldable pub bury : GoLib → Round → String → DeliveryJob → World → World
unfolding store_dlq forget
bury lib r reason job w =
    forget r job (record w { dead = (store_dlq lib r.store_fault job reason w.dead).1 })

-- The rest of a round after a failed delivery.
unfoldable pub after_error : GoLib → Round → DeliveryJob → Error → World → World
unfolding bury enqueue retry_delay is_retryable error_text
after_error lib r job e w =
    let spent = record job { attempt = suc job.attempt } in
    let due = record spent { next_retry_at = r.now + retry_delay r spent.attempt } in
    if is_retryable e
    then (if leb max_attempts spent.attempt
        then bury lib r "retry attempts exhausted" spent w
        else record w { retries = (enqueue lib r.enqueue_fault due w.retries).1 })
    else bury lib r (error_text e) job w

-- one round of the loop of `processBatch`
unfoldable pub retry_one : GoLib → Round → DeliveryJob → World → World
unfolding process_delivery after_error forget
retry_one lib r job w =
    let (answer, w') = process_delivery lib r.delivery job w in
    elim answer [ ok u ↦ forget r job w' | err e ↦ after_error lib r job e w' ]

unfoldable pub retry_all : GoLib → (ℕ → Round) → ℕ → List DeliveryJob → World → World
unfolding retry_one
retry_all lib rounds i [] w = w
retry_all lib rounds i (job ∷ jobs) w =
    retry_all lib rounds (suc i) jobs (retry_one lib (rounds i) job w)

abbrev pub batch_size : ℕ
batch_size = 100

-- `processBatch` at the time `now`
unfoldable pub process_batch : GoLib → Fault → ℕ → (ℕ → Round) → World → World
unfolding get_ready_jobs retry_all
process_batch lib fault now rounds w = elim (get_ready_jobs lib fault now batch_size w.retries) [
  | err e ↦ w
  | ok jobs ↦ retry_all lib rounds 0 jobs w
]
