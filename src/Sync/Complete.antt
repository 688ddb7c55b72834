-- ===== src/Sync/Complete.antt =====
-- What a device gets that asks again from the last event of each answer.
use krampus.Prelude.{ℕ, zero, suc, Option, none, List, [], ◌++◌}
use krampus.Prelude.Order.{last_key}
use krampus.Sync.{SyncEvent, by_id, Answer, events, sync_failed, handle_sync}

abbrev pub received : Answer → List SyncEvent
received (events found) = found
received sync_failed = []

-- The answers to `n` requests in a row, each from the last event of the one before.
abbrev pub requests : Option ℕ → List SyncEvent → ℕ → ℕ → List SyncEvent
requests limit rows zero last = []
requests limit rows (suc n) last =
    let found = received (handle_sync none last limit rows) in
    let rest = requests limit rows n (last_key by_id last found) in found ++ rest
