-- ===== src/Lib.antt =====
-- Krampus is a chat server in Go: clients hold WebSocket or SSE connections, send messages to rooms,
-- and get the messages of their rooms pushed. This library models the core of the server.
--
-- How the parts interact. A client connects and is registered in the connection manager
-- (internal/message/adapters/WebSocketManager.go), under its user and under its room. A message is
-- routed: real-time types go to the WebSocket clients of the room through the bounded delivery queue,
-- others to SSE clients at once and to WebSocket clients through the queue. The delivery workers take
-- jobs off the queue, find the client, put the message into its channel and record the status; a
-- failed job goes to the retry table, and from there, by the retry worker
-- (internal/message/service/retryWorker.go), to a client or to the dead-letter table. The message
-- service (internal/message/service/messageService.go) checks a message against the users and rooms
-- of internal/chat before it is stored, and the outbox worker publishes what is stored. Apart from
-- that, consumers read the events table in batches and hand the events to projections, the nodes
-- share its partitions by leases, and the account services hand out the tokens of the sessions.
--
-- Files.
--   Prelude       shared names, Boolean tests, lists, dictionaries (Go maps), integers
--   Domain        Errors: pkg/apperror; Message: internal/message/domain; Room: internal/chat/domain
--   Storage       the tables of internal/message/storage as lists of rows; a `Fault` is the error
--                 that the database answers with, if it does
--   Chat          Access: who may send (internal/chat/service/roomService.go); Rooms: the service
--                 with its table and cache; Users: the same for users, with permissions and status
--   Realtime      Client: WebSocketClient.go and SSEClient.go; Manager: the registry, `Register`,
--                 `Unregister`, `findClient`; Broadcast: `RouteMessage`, `broadcastRealtime`,
--                 `broadcastDurable`, `SendToUser`, `SendPresenceUpdate`; Delivery:
--                 `ProcessDelivery`, `deliveryWorker`, `HandleAck` (internal/message/adapters)
--   Messaging     Limits: the rate limiter; Record and Process: `MessageService.Process`, its writes
--                 and its checks; Retry: `processBatch`; Outbox: the outbox worker
--                 (internal/message/service); ReadPump: the read loop of a WebSocket connection
--   Moderation    Spam: the sliding window (internal/moderation/service/spam.go)
--   Events        the bus, the projector and the events table; Consumer: a round of a projection
--                 consumer; Replay: `ReplayEngine`; Leases: the leases of partitions, coordinator and
--                 failover; Snapshots (internal/events/service)
--   Accounts      Attempts: login attempts and blocks; Tokens: access and refresh tokens; Sessions:
--                 the sessions in Redis; Login: registration, login, logout (internal/user);
--                 TwoFa: two-factor codes (internal/auth)
--   Files         uploads in chunks and their completion, the quota (internal/files/service)
--   Search        the projection that is searched, its rebuild, the conditions of a search; Queue: a
--                 pass of the index worker (internal/search)
--   Sync          the reading of missed events (internal/sync and `handleSync` of
--                 internal/chat/adapters/chatHandler.go)
--   Scheduling    the scheduler of messages (internal/message/scheduler)
--   Examples      test data, and each theorem applied to it
--
-- How the code is modelled. A client object is a number into a heap, so the two indices of the
-- manager share it. A method is one step, also `Register` and `Unregister`, which hold one lock after
-- another, and `VerifyCode`, which has no transaction: what can come between the sections of
-- `Unregister` is in Realtime/Manager/Overlap, the rest of it is not modelled. Whatever a step cannot
-- decide itself is an argument: the clock, random numbers, the choice of a `select` with two ready cases,
-- the errors of the database. Times are nanoseconds as natural numbers; no sum of the modelled code
-- is near 2 ^ 63. `encoding/json`, the texts of numbers and what a
-- JSONB column makes of the payload of a message are the record `GoLib`; other JSONB columns keep their
-- text here. A Go map is an
-- association list, and the theorems hold for every order of its entries. Loops run over finite lists;
-- only `replay` has fuel, a unit for each batch, and more fuel than there are events is enough. The
-- times of the leases are milliseconds. A connection that is lost while rows are read, which ends
-- `rows.Next` early, is not modelled.
--
-- Bounds: 256 messages in a client's channel, 8192 jobs in the delivery queue, five attempts, a
-- hundred rows in a batch, as in the code.
--
-- Not modelled: HTTP and socket input and output, Redis publish/subscribe, Kafka, generated SQL code,
-- logging, configuration, the front end; and the parts that the manifest names as planned.
pub mod Prelude
pub mod Domain
pub mod Events
pub mod Storage
pub mod Accounts
pub mod Chat
pub mod Realtime
pub mod Messaging
pub mod Files
pub mod Search
pub mod Sync
pub mod Scheduling
pub mod Moderation
pub mod Examples
