-- ===== src/Events/Leases/Holder.antt =====
-- A node that keeps its lease fresh keeps its partition.
use krampus.Prelude.{
  ℕ, ◌+◌, ◌≤◌, String, true, not, none, some, List, [], ◌∷◌, ◌≡◌, refl, ap, ◌∙◌, inl, inr, In,
  In-filter, Bool-cases, arith, eq_iff,
}
use krampus.Storage.Fault.{Fault}
use krampus.Events.Leases.{
  Lease, lease_time, is_leased, is_held_by, claim_partition, acquire_partition, renew_leases,
  renew_lease, release_partition, release_expired_leases,
}
use krampus.Events.Leases.Steps.{LeaseWorld, LeaseStep, waits, acquires, renews, releases, expires}

-- The node has a lease of the partition whose last heartbeat is not before `t`.
abbrev pub Holds : ℕ → String → ℕ → List Lease → Type 0
Holds p node t leases =
    (l : Lease) × In l leases × (l.partition ≡ p) × (l.node ≡ node) × (t ≤ l.heartbeat)

claim_partition-In :
    (now p : ℕ) (node : String) (leases : List Lease) (l : Lease)
    → In l leases
    → In l (claim_partition now p node leases).1
unfolding claim_partition
claim_partition-In now p node leases l h = elim (Bool-cases (is_leased p leases)) [
  | inl c ↦ rw (c, claim_partition) h
  | inr c ↦ rw (c, claim_partition) (inr h)
]

pub acquire_partition-In :
    (f g : Fault) (now p : ℕ) (node : String) (leases : List Lease) (l : Lease)
    → In l leases
    → In l (acquire_partition f g now p node leases).1
unfolding acquire_partition
acquire_partition-In (some x) g now p node leases l h = h
acquire_partition-In none g now p node leases l h = claim_partition-In now p node leases l h

Holds-cons :
    (p : ℕ) (node : String) (t : ℕ) (l : Lease) (leases : List Lease)
    → Holds p node t leases
    → Holds p node t (l ∷ leases)
Holds-cons p node t l leases h = (h.0, inr h.1, h.2, h.3, h.4)

renew_leases-Holds :
    (now q : ℕ) (m : String) (p t : ℕ) (node : String) (leases : List Lease)
    → t ≤ now
    → Holds p node t leases
    → Holds p node t (renew_leases now q m leases)
unfolding renew_leases
renew_leases-Holds now q m p t node [] b h = absurd h.1
renew_leases-Holds now q m p t node (k ∷ leases) b (l, inl e, x, y, z) =
    elim (Bool-cases (is_held_by q m k)) [
      | inl c ↦
          rw (c, renew_leases) (_, inl refl, ap (λ j. j.partition) e ∙ x, ap (λ j. j.node) e ∙ y, b)
      | inr c ↦ rw (c, renew_leases) (l, inl e, x, y, z)
    ]
renew_leases-Holds now q m p t node (k ∷ leases) b (l, inr i, x, y, z) =
    Holds-cons p node t _ _ (renew_leases-Holds now q m p t node leases b (l, i, x, y, z))

not_released :
    (q p : ℕ) (m node : String) (l : Lease)
    → l.partition ≡ p
    → l.node ≡ node
    → ¬ ((q ≡ p) × (m ≡ node))
    → not (is_held_by q m l) ≡ true
not_released q p m node l x y g = elim (Bool-cases (is_held_by q m l)) [
  | inl c ↦ absurd (g (ground (arith, c, x), ground (arith, c, y, eq_iff l.node m)))
  | inr c ↦ ap not c
]

-- A step that takes a partition from a node: the node's own release.
abbrev pub GivesUp : {w v : LeaseWorld} → ℕ → String → LeaseStep w v → Type 0
GivesUp p node (releases f q m) = (q ≡ p) × (m ≡ node)
GivesUp p node _ = ⊥

-- A node with a lease of a partition whose last heartbeat was at most 30 seconds ago still has a lease of
-- it, with the same or a later heartbeat, after any statement of any node except its own release.
pub LeaseStep-Holds :
    (w v : LeaseWorld) (p t : ℕ) (node : String) (s : LeaseStep w v)
    → t ≤ w.now
    → w.now ≤ t + lease_time
    → ¬ GivesUp p node s
    → Holds p node t w.leases
    → Holds p node t v.leases
unfolding renew_lease release_partition release_expired_leases
LeaseStep-Holds w v p t node (waits d) b e g h = h
LeaseStep-Holds w v p t node (acquires f f' q m) b e g h =
    (h.0, acquire_partition-In f f' w.now q m w.leases h.0 h.1, h.2, h.3, h.4)
LeaseStep-Holds w v p t node (renews none q m) b e g h =
    renew_leases-Holds w.now q m p t node w.leases b h
LeaseStep-Holds w v p t node (renews (some x) q m) b e g h = h
LeaseStep-Holds w v p t node (releases none q m) b e g h =
    (h.0, In-filter _ h.0 w.leases (not_released q p m node h.0 h.2 h.3 g) h.1, h.2, h.3, h.4)
LeaseStep-Holds w v p t node (releases (some x) q m) b e g h = h
LeaseStep-Holds w v p t node (expires none) b e g h =
    (h.0, In-filter _ h.0 w.leases (ground (arith, h.4, e)) h.1, h.2, h.3, h.4)
LeaseStep-Holds w v p t node (expires (some x)) b e g h = h
