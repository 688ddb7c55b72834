-- ===== src/Examples/Sync.antt =====
-- The theorem about the reading of missed events at a concrete input.
use krampus.Prelude.{ℕ, List, [], ◌∷◌}
use krampus.Sync.{SyncEvent}

abbrev event : ℕ → SyncEvent
event n = record {
  id = n;
  aggregate_id = "m1";
  aggregate_type = "message";
  event_type = "message_created";
  payload = "{}";
  created_at = 7;
}

abbrev table : List SyncEvent
table = event 3 ∷ event 1 ∷ event 2 ∷ []
