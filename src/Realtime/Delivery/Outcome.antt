-- ===== src/Realtime/Delivery/Outcome.antt =====
-- What a delivery changes, and what it leaves alone.
use krampus.Prelude.{◌≤◌, ◌≡◌, false, List, [], ◌∷◌, ◌++◌, arith, length}
use krampus.Domain.Errors.{Error, err, is_retryable}
use krampus.Domain.Message.{Message, DeliveryJob, GoLib}
use krampus.Realtime.Client.{TransportClient, WsClient, websocket}
use krampus.Realtime.Delivery.{World, Conditions, process_delivery}

-- A failed delivery changes nothing: no client, no status, no queue.
pub process_delivery_error :
    (lib : GoLib) (env : Conditions) (job : DeliveryJob) (w : World) (e : Error)
    → (process_delivery lib env job w).0 ≡ err e
    → (process_delivery lib env job w).1 ≡ w
unfolding process_delivery
process_delivery_error lib env job w e h = ground arith

-- No error of a delivery is one that `IsRetryable` accepts: none is an `*AppError`.
pub process_delivery_not_retryable :
    (lib : GoLib) (env : Conditions) (job : DeliveryJob) (w : World) (e : Error)
    → (process_delivery lib env job w).0 ≡ err e
    → is_retryable e ≡ false
unfolding process_delivery is_retryable
process_delivery_not_retryable lib env job w e h = ground arith

-- What a `SafeSend` to a WebSocket client whose errors are dropped may add to its channel.
pub record Adds (c : WsClient) (after : TransportClient) : Type 0 where
  pub client : WsClient
  pub added : List Message
  pub same : after ≡ websocket client
  pub grown : client.send ≡ c.send ++ added
  pub at_most_one : length added ≤ 1

-- the channel after the message itself
abbrev with_message : WsClient → Message → WsClient
with_message ws msg = record ws { send = ws.send ++ msg ∷ [] }
