-- ===== src/Examples/Events.antt =====
-- The theorems about the events at concrete inputs.
use krampus.Prelude.{
  ℕ, String, none, some, List, [], ◌∷◌, ◌++◌, ◌≡◌, ◌≢◌, refl, inl, inr, arith, eq_iff,
  if◌then◌else◌, ◌==◌, In, ◌≤◌, ◌⊎◌,
}
use krampus.Prelude.Dict.{lookup, insert}
use krampus.Domain.Errors.{ok, err, plain}
use krampus.Prelude.Order.{HasDistinctKeys}
use krampus.Events.{by_sequence, DomainEvent, Handler, events_after, dispatch}
use krampus.Events.Consumer.{
  EventConsumer, EventWorld, Round, consume, start, checkpoint_of, batch_of,
}
use krampus.Events.Consumer.Attempts.{IsSettled}
use krampus.Events.Consumer.Checkpoint.{consume_checkpoint}
use krampus.Events.Consumer.Settled.{consume_loses_none}
use krampus.Events.Consumer.Stuck.{IsClean, HasLetters, repeated, start-IsPoison}
use krampus.Events.Replay.{Fetch, replay}
use krampus.Events.Replay.Refines.{dispatch_all, replay-dispatch_all}
use krampus.Events.Replay.Halts.{replay_halts}
use krampus.Events.Leases.{
  renew_lease, acquire_partition, Lease, Claims, rebalance, release_expired_leases,
}
use krampus.Events.Leases.Steps.{LeaseWorld, renews}
use krampus.Events.Leases.Holder.{Holds, LeaseStep-Holds}
use krampus.Events.Leases.Takeover.{IsFresh, rebalance-release_expired_leases}
use krampus.Events.Snapshots.{Snapshot}

abbrev event : ℕ → DomainEvent
event n = record {
  id = n;
  aggregate_id = "m1";
  aggregate_type = "message";
  event_type = "message_created";
  payload = "{}";
  event_version = 1;
  sequence = n;
  created_at = 7;
}

abbrev rows : List DomainEvent
rows = event 3 ∷ event 1 ∷ event 2 ∷ []

distinct : HasDistinctKeys by_sequence rows
distinct = ((omega arith, (omega arith, tt)), ((omega arith, tt), (tt, tt)))

-- A projection that lists the events it takes and refuses the event 2.
abbrev lists : Handler (List ℕ)
lists e w = if e.id == 2 then (err (plain "refused"), w) else (ok tt, w ++ e.id ∷ [])

abbrev calm : Fetch
calm = record { query_fault = none; scan_fault = λ j. none }

replay-dispatch_all_example :
    replay (lists ∷ []) (λ i. calm) rows 2 4 0 []
    ≡ some (dispatch_all (lists ∷ []) (events_after 0 rows) [])
unfolding events_after
replay-dispatch_all_example =
    replay-dispatch_all (lists ∷ []) rows distinct (λ i. calm) 1 4 0 [] (λ i. refl) (λ i j. refl)
      (omega arith)

-- the database refuses the second batch
abbrev cut_off : ℕ → Fetch
cut_off i = record { query_fault = if i == 2 then some "closed" else none; scan_fault = λ j. none }

replay_halts_example : replay (lists ∷ []) cut_off rows 1 4 0 [] ≢ none
unfolding events_after
replay_halts_example = replay_halts (lists ∷ []) rows cut_off 0 4 0 [] distinct (omega arith)

abbrev consumer : EventConsumer (List ℕ)
consumer = record { name = "search"; batch_size = 2; projections = lists ∷ [] }

abbrev clean : Round
clean = record {
  get_fault = none;
  begin_fault = none;
  query_fault = none;
  scan_fault = λ i. none;
  dead_fault = λ i. none;
  save_fault = none;
  commit_fault = none;
}

abbrev unsaved : Round
unsaved = record clean { commit_fault = some "closed" }

abbrev world : EventWorld (List ℕ)
world = record {
  events = rows;
  checkpoints = ("audit", 1) ∷ ("search", 1) ∷ [];
  dead = [];
  view = [];
}

abbrev other : String
other = "audit"

consume_checkpoint_example :
    (checkpoint_of consumer.name world.checkpoints
      ≤ checkpoint_of consumer.name (consume consumer clean world).1.checkpoints)
    × (lookup other (consume consumer clean world).1.checkpoints ≡ lookup other world.checkpoints)
consume_checkpoint_example =
    consume_checkpoint consumer clean world other (ground (arith, eq_iff "search" "audit"))

consume_loses_none_example :
    IsSettled consumer
      (event 2)
      (batch_of consumer world)
      world.view
      (consume consumer clean world).1.dead
unfolding consume lookup dispatch insert
consume_loses_none_example =
    consume_loses_none consumer clean world (event 2) distinct refl refl refl (λ j. refl)
      (λ j. refl) (inr (inr (inl refl))) (omega arith) (omega arith)

-- a consumer that only ever reads one event, the refused one
abbrev small : EventConsumer (List ℕ)
small = record consumer { batch_size = 1 }

clean-IsClean : IsClean clean
clean-IsClean = record {
  get = refl;
  begin = refl;
  query = refl;
  scan = λ i. refl;
  dead = λ i. refl;
  save = refl;
  commit = refl;
}

start-IsPoison_example :
    ((start small (λ i. clean) 3 world).checkpoints ≡ world.checkpoints)
    × (batch_of small (start small (λ i. clean) 3 world) ≡ batch_of small world)
    × HasLetters small world.dead
        (repeated 3 (batch_of small world))
        (start small (λ i. clean) 3 world).dead
unfolding lookup dispatch events_after
start-IsPoison_example =
    start-IsPoison small (λ i. clean) 3 world (λ i. clean-IsClean)
      (λ v. (plain "refused", refl), tt)

abbrev leases : List Lease
leases = record { partition = 0; node = "a"; heartbeat = 5_000 } ∷ []

abbrev held : LeaseWorld
held = record { now = 20_000; leases = leases }

abbrev renewed : LeaseWorld
unfolding renew_lease
renewed = record { now = 20_000; leases = (renew_lease none 20_000 0 "a" leases).1 }

abbrev shared : LeaseWorld
unfolding acquire_partition
shared = record {
  now = 20_000;
  leases = (acquire_partition none none 20_000 1 "b" renewed.leases).1;
}

LeaseStep-Holds_example : Holds 0 "a" 5_000 renewed.leases
unfolding renewed
LeaseStep-Holds_example =
    LeaseStep-Holds held renewed 0 5_000 "a" (renews none 0 "a") (omega arith) (omega arith)
      (λ x. x)
      (record { partition = 0; node = "a"; heartbeat = 5_000 }, inl refl, refl, refl, omega arith)

abbrev claims : Claims
claims = record { now = λ i. 50_000; insert_fault = λ i. none; affected_fault = λ i. none }

rebalance-release_expired_leases_example :
    (l : Lease) × In l (rebalance claims "b" 4 (release_expired_leases none 40_000 leases).1)
    × (l.partition ≡ 0)
    × IsFresh 40_000 l
    × (In l leases ⊎ (l.node ≡ "b"))
rebalance-release_expired_leases_example =
    rebalance-release_expired_leases claims "b" 4 40_000 leases 0 (λ i. refl) (λ i. omega arith)
      (omega arith)

abbrev snapshot : Snapshot
snapshot = record {
  id = 0;
  aggregate_type = "poll";
  aggregate_id = "p1";
  last_sequence = 9;
  snapshot = "{}";
  created_at = 0;
}
