-- ===== src/Storage/RetryQueue.antt =====
-- internal/message/storage/retryStorage.go and DLQStorage.go over sql/queries.
use krampus.Prelude.{
  ℕ, String, ◌&&◌, not, List, [], ◌∷◌, ◌++◌, str_eq, leb, if◌then◌else◌, filter, take,
}
use krampus.Domain.Errors.{Result, ok, err}
use krampus.Domain.Message.{DeliveryJob, GoLib, marshal_message, unmarshal_message}
use krampus.Storage.Fault.{Fault, exec, query}

pub record RetryRow : Type 0 where
  pub message_id : String
  pub user_id : String
  pub room_id : String
  pub payload : String
  pub attempt : ℕ
  pub next_retry_at : ℕ

pub record DlqRow : Type 0 where
  pub message_id : String
  pub user_id : String
  pub room_id : String
  pub payload : String
  pub reason : String

-- `Enqueue`
unfoldable pub enqueue :
    GoLib → Fault → DeliveryJob → List RetryRow → Result (Unit {0}) × List RetryRow
enqueue lib fault job rows = elim (marshal_message lib job.message) [
  | err e ↦ (err e, rows)
  | ok payload ↦ exec fault rows (
      rows
      ++ record {
        message_id = job.message.id;
        user_id = job.user_id;
        room_id = job.room_id;
        payload = payload;
        attempt = job.attempt;
        next_retry_at = job.next_retry_at;
      }
        ∷ [])
]

-- ORDER BY next_retry_at ASC
unfoldable pub insert_by_time : RetryRow → List RetryRow → List RetryRow
insert_by_time r [] = r ∷ []
insert_by_time r (s ∷ rows) =
    let rest = insert_by_time r rows in
    if leb r.next_retry_at s.next_retry_at then r ∷ s ∷ rows else s ∷ rest

unfoldable pub order_by_time : List RetryRow → List RetryRow
order_by_time [] = []
order_by_time (r ∷ rows) = insert_by_time r (order_by_time rows)

-- GetReadyRetryJobs at the time `now`
unfoldable pub ready_rows : ℕ → ℕ → List RetryRow → List RetryRow
unfolding order_by_time insert_by_time
ready_rows now limit rows = take limit (order_by_time (filter (λ r. leb r.next_retry_at now) rows))

-- The loop of `GetReadyJobs`: a row whose payload does not decode is skipped. The table keeps no
-- client id, so the field is the empty text.
unfoldable pub decode_rows : GoLib → List RetryRow → List DeliveryJob
decode_rows lib [] = []
decode_rows lib (r ∷ rows) =
    let rest = decode_rows lib rows in
    elim (unmarshal_message lib r.payload) [
      | err e ↦ rest
      | ok msg ↦
          record {
            message = msg;
            client_id = "";
            user_id = r.user_id;
            room_id = r.room_id;
            attempt = r.attempt;
            next_retry_at = r.next_retry_at;
          }
          ∷ rest
    ]

-- `GetReadyJobs`
unfoldable pub get_ready_jobs : GoLib → Fault → ℕ → ℕ → List RetryRow → Result (List DeliveryJob)
unfolding decode_rows ready_rows
get_ready_jobs lib fault now limit rows = query fault (decode_rows lib (ready_rows now limit rows))

-- `Delete`
unfoldable pub delete_job :
    Fault → String → String → List RetryRow → Result (Unit {0}) × List RetryRow
delete_job fault m u rows =
    exec fault rows (filter (λ r. not (str_eq r.message_id m && str_eq r.user_id u)) rows)

-- `Store` of the dead-letter queue
unfoldable pub store_dlq :
    GoLib → Fault → DeliveryJob → String → List DlqRow → Result (Unit {0}) × List DlqRow
store_dlq lib fault job reason rows = elim (marshal_message lib job.message) [
  | err e ↦ (err e, rows)
  | ok payload ↦ exec fault rows (
      rows
      ++ record {
        message_id = job.message.id;
        user_id = job.user_id;
        room_id = job.room_id;
        payload = payload;
        reason = reason;
      }
        ∷ [])
]
