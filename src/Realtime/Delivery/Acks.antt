-- ===== src/Realtime/Delivery/Acks.antt =====
-- How acknowledgements and deliveries meet in the table of delivery statuses.
use krampus.Prelude.{ℕ, ◌≡◌, ◌≢◌, refl, String, arith, some, none, Option, str_eq_refl, eq_iff, ◌⊎◌}
use krampus.Domain.Message.{AckPayload, DeliveryStatus, DeliveryJob, GoLib, sent, delivered, read}
use krampus.Storage.Status.{StatusRow, find_status, find_status-upsert}
use krampus.Realtime.Delivery.{World, Conditions, handle_ack, after_send}
use krampus.Realtime.Client.{TransportClient}

abbrev pub ack_of : String → DeliveryStatus → ℕ → AckPayload
ack_of m s t = record { message_id = m; status = s; timestamp = t }

-- what the table holds of a message and a user
abbrev pub status_of : String → String → World → Option StatusRow
status_of m u w = find_status m u w.statuses

abbrev pub status_row : String → String → DeliveryStatus → Option ℕ → Option ℕ → StatusRow
status_row m u s d r = record {
  message_id = m;
  user_id = u;
  status = s;
  delivered_at = d;
  read_at = r;
}

-- An accepted acknowledgement `delivered` or `read` becomes the whole row of its message and user:
-- a `read` forgets when the message was delivered, and a `delivered` when it was read. The rows of
-- other messages and users stay, and so do the connections and the other tables.
pub handle_ack_replaces :
    (now t : ℕ) (u m : String) (w : World)
    → let d = (handle_ack none now u (ack_of m delivered t) w).1 in
      let r = (handle_ack none now u (ack_of m read t) w).1 in
      (status_of m u d ≡ some (status_row m u delivered (some now) none))
      × (status_of m u r ≡ some (status_row m u read none (some now)))
      × ((m' u' : String)
          → (m ≢ m') ⊎ (u ≢ u')
          → (status_of m' u' d ≡ status_of m' u' w) × (status_of m' u' r ≡ status_of m' u' w))
      × (d ≡ record w { statuses = d.statuses })
      × (r ≡ record w { statuses = r.statuses })
unfolding handle_ack
handle_ack_replaces now t u m w =
    let d = status_row m u delivered (some now) none in
    let r = status_row m u read none (some now) in
    (
      ground (arith, find_status-upsert m u d w.statuses, str_eq_refl m, str_eq_refl u),
      ground (arith, find_status-upsert m u r w.statuses, str_eq_refl m, str_eq_refl u),
      λ m' u' ne. (
        ground (arith, find_status-upsert m' u' d w.statuses, eq_iff m m', eq_iff u u'),
        ground (arith, find_status-upsert m' u' r w.statuses, eq_iff m m', eq_iff u u'),
      ),
      refl,
      refl,
    )

-- The delivery sends before it records `sent`. Where the client's `read` is handled in between, the
-- record of the delivery overwrites it: the row says `sent`, with no time of reading.
pub read_before_sent :
    (lib : GoLib) (env : Conditions) (job : DeliveryJob) (w : World) (c now t : ℕ)
    (client : TransportClient)
    → env.status_fault ≡ none
    → let acked = (handle_ack none now job.user_id (ack_of job.message.id read t) w).1 in
      status_of job.message.id job.user_id (after_send lib env job acked c client)
      ≡ some (status_row job.message.id job.user_id sent none none)
unfolding after_send
read_before_sent lib env job w c now t client ok_db =
    let acked = (handle_ack none now job.user_id (ack_of job.message.id read t) w).1 in
    ground (
      arith,
      find_status-upsert job.message.id job.user_id
          (status_row job.message.id job.user_id sent none none) acked.statuses,
      str_eq_refl job.message.id,
      str_eq_refl job.user_id,
    )
