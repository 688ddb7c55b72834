-- ===== src/Events/Leases.antt =====
-- ownership.go, coordinator.go, heartbeat.go, failover.go, rebalancer.go and leases.go: the leases of
-- partitions. A time is a number of milliseconds.
pub mod Steps
pub mod Holder
pub mod Takeover
use krampus.Prelude.{
  ℕ, zero, suc, ◌+◌, ◌-◌, String, Bool, true, false, Option, none, some, List, [], ◌∷◌,
  if◌then◌else◌, ltb, ◌==◌, str_eq, not, filter, length, ◌%◌,
}
use krampus.Domain.Errors.{Result, ok, err, plain}
use krampus.Storage.Fault.{Fault, exec, query}

-- A row of event_partition_leases; partition_id is its key.
pub record Lease : Type 0 where
  pub partition : ℕ
  pub node : String
  pub heartbeat : ℕ

-- 30 seconds, and the periods of the coordinator and of the heartbeats
abbrev pub lease_time : ℕ
lease_time = 30_000

abbrev pub rebalance_period : ℕ
rebalance_period = 5_000

abbrev pub heartbeat_period : ℕ
heartbeat_period = 10_000

abbrev pub is_leased : ℕ → List Lease → Bool
is_leased p [] = false
is_leased p (l ∷ leases) = let rest = is_leased p leases in if l.partition == p then true else rest

-- the INSERT of `AcquirePartition`, with the answer `affected > 0`
unfoldable pub claim_partition : ℕ → ℕ → String → List Lease → Bool × List Lease
claim_partition now p node leases =
    if is_leased p leases
    then (false, leases)
    else (true, record { partition = p; node = node; heartbeat = now } ∷ leases)

-- `AcquirePartition`; the second fault is that of `RowsAffected`
unfoldable pub acquire_partition :
    Fault → Fault → ℕ → ℕ → String → List Lease → Result Bool × List Lease
unfolding claim_partition
acquire_partition (some text) affected now p node leases = (err (plain text), leases)
acquire_partition none affected now p node leases =
    let claimed = claim_partition now p node leases in (query affected claimed.0, claimed.1)

abbrev pub is_held_by : ℕ → String → Lease → Bool
is_held_by p node l = if l.partition == p then str_eq l.node node else false

-- `RenewLease`
unfoldable pub renew_leases : ℕ → ℕ → String → List Lease → List Lease
renew_leases now p node [] = []
renew_leases now p node (l ∷ leases) =
    let rest = renew_leases now p node leases in
    (if is_held_by p node l then record l { heartbeat = now } else l) ∷ rest

unfoldable pub renew_lease : Fault → ℕ → ℕ → String → List Lease → Result (Unit {0}) × List Lease
unfolding renew_leases
renew_lease fault now p node leases = exec fault leases (renew_leases now p node leases)

-- `ReleasePartition`
unfoldable pub release_partition : Fault → ℕ → String → List Lease → Result (Unit {0}) × List Lease
release_partition fault p node leases =
    exec fault leases (filter (λ l. not (is_held_by p node l)) leases)

-- `LeaseExpired`; `time.Since` of a later time is negative, here 0
unfoldable pub lease_expired : ℕ → ℕ → Bool
lease_expired now heartbeat = ltb lease_time (now - heartbeat)

-- `ReleaseExpiredLeases`: WHERE heartbeat_at < NOW() - INTERVAL '30 seconds'
unfoldable pub release_expired_leases : Fault → ℕ → List Lease → Result (Unit {0}) × List Lease
release_expired_leases fault now leases =
    exec fault leases (filter (λ l. not (ltb (l.heartbeat + lease_time) now)) leases)

-- `CountPartitions`
unfoldable pub count_partitions : Fault → String → List Lease → Result ℕ
count_partitions fault node leases = query fault (length (filter (λ l. str_eq l.node node) leases))

-- How the statements of a round of the coordinator turn out, by partition.
pub record Claims : Type 0 where
  pub now : ℕ → ℕ
  pub insert_fault : ℕ → Fault
  pub affected_fault : ℕ → Fault

-- the loop of `rebalance`, `left` partitions from `p` on; an error is logged and skipped
unfoldable pub rebalance_from : Claims → String → ℕ → ℕ → List Lease → List Lease
unfolding acquire_partition
rebalance_from a node p zero leases = leases
rebalance_from a node p (suc left) leases =
    rebalance_from a node (suc p) left
      (acquire_partition (a.insert_fault p) (a.affected_fault p) (a.now p) p node leases).1

-- `Coordinator.rebalance`
unfoldable pub rebalance : Claims → String → ℕ → List Lease → List Lease
unfolding rebalance_from
rebalance a node partitions leases = rebalance_from a node 0 partitions leases

-- what `HeartbeatWorker.Start` does on a tick
unfoldable pub beat : (ℕ → Fault) → ℕ → String → List ℕ → List Lease → List Lease
unfolding renew_lease
beat faults now node [] leases = leases
beat faults now node (p ∷ partitions) leases =
    beat faults now node partitions (renew_lease (faults p) now p node leases).1

-- `PartitionCoordinator.Partition`: `sum32` is FNV-1a of hash/fnv, a number of 32 bits
unfoldable pub partition_of : (String → ℕ) → ℕ → String → ℕ
partition_of sum32 partitions id = sum32 id % partitions
