-- ===== src/Events/Leases/Steps.antt =====
-- The statements of several nodes on the leases, in any order.
use krampus.Prelude.{ℕ, ◌+◌, String, List}
use krampus.Storage.Fault.{Fault}
use krampus.Events.Leases.{
  Lease, acquire_partition, renew_lease, release_partition, release_expired_leases,
}

-- The leases and the clock of the database.
pub record LeaseWorld : Type 0 where
  pub now : ℕ
  pub leases : List Lease

-- One statement; any node may send any of them at any time, and any may fail.
pub data LeaseStep (w : LeaseWorld) : LeaseWorld → Type 0 where
  waits : (d : ℕ) → LeaseStep w (record w { now = w.now + d })
  acquires :
      (f g : Fault) (p : ℕ) (node : String)
      → LeaseStep w (record w { leases = (acquire_partition f g w.now p node w.leases).1 })
  renews :
      (f : Fault) (p : ℕ) (node : String)
      → LeaseStep w (record w { leases = (renew_lease f w.now p node w.leases).1 })
  releases :
      (f : Fault) (p : ℕ) (node : String)
      → LeaseStep w (record w { leases = (release_partition f p node w.leases).1 })
  expires :
      (f : Fault) → LeaseStep w (record w { leases = (release_expired_leases f w.now w.leases).1 })
