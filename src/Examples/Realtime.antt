-- ===== src/Examples/Realtime.antt =====
-- The theorems on connections, broadcasts and deliveries, at the test data.
use krampus.Prelude.{
  ℕ, List, [], ◌∷◌, ◌++◌, none, some, ◌≡◌, refl, arith, In, eq_iff, ◌==◌, if◌then◌else◌,
}
use krampus.Prelude.Dict.{lookup, insert, delete}
use krampus.Domain.Errors.{ok, err, plain}
use krampus.Domain.Message.{Message, DeliveryJob}
use krampus.Realtime.Client.{TransportClient, websocket, new_client, conn_id}
use krampus.Realtime.Manager.{Manager, new_manager, register, find_client}
use krampus.Realtime.Manager.Lookup.{lookup_conn, subscribed}
use krampus.Realtime.Manager.Overlap.{overlapped, is_left_empty, overlapped-find_client}
use krampus.Realtime.Manager.Tidy.{IsTidy}
use krampus.Realtime.Manager.Linked.{IsLinked, Reach, here, next, connects, Reach-invariant}
use krampus.Realtime.Broadcast.{job_for, broadcast_realtime, collect, room_handles}
use krampus.Realtime.Broadcast.Recipients.{audience, broadcast_realtime_complete}
use krampus.Realtime.Delivery.{World}
use krampus.Realtime.Delivery.Attempts.{retry_row}
use krampus.Messaging.Retry.{Round}
use krampus.Examples.{lib, hello, heap, ann, empty, lobby, job, world, conditions}

lobby_reached : Reach lib empty lobby
unfolding new_client new_manager register empty ann lobby lookup conn_id lookup_conn
lobby_reached = next here (connects 0 0 0 ann refl refl)

Reach-invariant_example : IsLinked lib lobby × IsTidy lobby
unfolding new_manager empty lobby
Reach-invariant_example = Reach-invariant lib heap lobby_reached

-- Two connections of one user.
abbrev twins : ℕ → TransportClient
unfolding new_client
twins n = if n == 0 then websocket ann else websocket (new_client "ann" "lobby" "10.0.0.2:80")

abbrev one_twin : Manager
unfolding register new_manager
one_twin = register lib 0 0 0 (new_manager twins)

overlapped-find_client_example :
    (find_client "ann" "10.0.0.2:80-ann" (overlapped lib 0 0 0 0 0 1 one_twin)
      ≡ err (plain "user not connected"))
    × (subscribed "lobby" "ann" (conn_id lib 0 (twins 1)) (overlapped lib 0 0 0 0 0 1 one_twin)
        ≡ some 1)
unfolding is_left_empty lookup delete conn_id one_twin twins insert
overlapped-find_client_example =
    overlapped-find_client lib 0 0 0 0 0 1 one_twin "10.0.0.2:80-ann" refl refl
      (λ e. absurd (let z = (eq_iff "10.0.0.2:80-ann" "10.0.0.1:80-ann").1 e in cc))

abbrev recipients : List ℕ
recipients = 0 ∷ []

abbrev jobs : List DeliveryJob
jobs = job ∷ []

broadcast_realtime_complete_example :
    let q = (broadcast_realtime lib (λ n. n) hello lobby).delivery_queue in
    let mine = job_for lib 0 hello (lobby.clients 0) in
    (added : List DeliveryJob) × (q ≡ lobby.delivery_queue ++ added)
    × In mine added
    × (find_client mine.user_id mine.client_id lobby ≡ ok 0)
unfolding new_client new_manager register empty ann lobby lookup conn_id audience lookup_conn insert
    collect room_handles
broadcast_realtime_complete_example =
    broadcast_realtime_complete lib (λ n. n) hello lobby "ann" "10.0.0.1:80-ann" 0 ann
      (Reach-invariant lib heap lobby_reached).0 refl refl refl (omega arith)

abbrev round : Round
round = record {
  delivery = conditions;
  backoff_random = 0;
  jitter_random = 0;
  now = 9;
  store_fault = none;
  delete_fault = none;
  enqueue_fault = none;
}

-- a table with one row that is due
abbrev waiting : World
waiting = record world { retries = retry_row job "m1" 0 ∷ [] }
