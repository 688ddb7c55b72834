-- ===== src/Events/Leases/Takeover.antt =====
-- What a round of the coordinator does for the partitions that have no lease, and what it cannot do.
use krampus.Prelude.{
  ℕ, zero, suc, ◌+◌, ◌≤◌, ◌<◌, String, true, not, none, List, [], ◌∷◌, ◌≡◌, ◌⊎◌, refl, inl, inr, In,
  All, All-map, All-In, filter, Bool-cases, Option-cases, arith, ltb, ◌==◌,
}
use krampus.Storage.Fault.{Fault}
use krampus.Events.Leases.{
  Lease, Claims, lease_time, is_leased, claim_partition, acquire_partition, release_expired_leases,
  rebalance_from, rebalance,
}
use krampus.Events.Leases.Holder.{acquire_partition-In}

-- Some node has a lease of the partition.
abbrev pub IsLeased : ℕ → List Lease → Type 0
IsLeased p leases = (l : Lease) × In l leases × (l.partition ≡ p)

is_leased→IsLeased : (p : ℕ) (leases : List Lease) → is_leased p leases ≡ true → IsLeased p leases
is_leased→IsLeased p [] h = absurd (let q = h in cc)
is_leased→IsLeased p (l ∷ leases) h = elim (Bool-cases (l.partition == p)) [
  | inl c ↦ (l, inl refl, ground (arith, c))
  | inr c ↦
      let rest = is_leased→IsLeased p leases (ground (arith, c, h)) in (rest.0, inr rest.1, rest.2)
]

claim_partition-IsLeased :
    (now p : ℕ) (node : String) (leases : List Lease)
    → IsLeased p (claim_partition now p node leases).1
unfolding claim_partition
claim_partition-IsLeased now p node leases = elim (Bool-cases (is_leased p leases)) [
  | inl c ↦ rw (c, claim_partition) (is_leased→IsLeased p leases c)
  | inr c ↦ rw (c, claim_partition) (_, inl refl, refl)
]

acquire_partition-IsLeased :
    (f g : Fault) (now p : ℕ) (node : String) (leases : List Lease)
    → f ≡ none
    → IsLeased p (acquire_partition f g now p node leases).1
unfolding acquire_partition
acquire_partition-IsLeased f g now p node leases e =
    rw (e, acquire_partition) (claim_partition-IsLeased now p node leases)

rebalance_from-In :
    (a : Claims) (node : String) (p left : ℕ) (leases : List Lease) (l : Lease)
    → In l leases
    → In l (rebalance_from a node p left leases)
unfolding rebalance_from
rebalance_from-In a node p zero leases l h = h
rebalance_from-In a node p (suc left) leases l h =
    rebalance_from-In a node (suc p) left _ l (acquire_partition-In _ _ _ p node leases l h)

rebalance_from-IsLeased :
    (a : Claims) (node : String) (p left : ℕ) (leases : List Lease) (q : ℕ)
    → ((i : ℕ) → a.insert_fault i ≡ none)
    → p ≤ q
    → q < p + left
    → IsLeased q (rebalance_from a node p left leases)
unfolding rebalance_from
rebalance_from-IsLeased a node p zero leases q f x y = absurd (omega (arith, x, y))
rebalance_from-IsLeased a node p (suc left) leases q f x y = elim (Bool-cases (p == q)) [
  | inl c ↦
      let now =
        acquire_partition-IsLeased (a.insert_fault p) (a.affected_fault p) (a.now p) p node leases
          (f p) in
      (now.0, rebalance_from-In a node (suc p) left _ now.0 now.1, ground (arith, c, now.2))
  | inr c ↦
      rebalance_from-IsLeased a node (suc p) left _ q f (ground (arith, c, x)) (omega (arith, y))
]

rebalance_from-All :
    (P : Lease → Type 0) (a : Claims) (node : String) (p left : ℕ) (leases : List Lease)
    → ((i q : ℕ) → P (record { partition = q; node = node; heartbeat = a.now i }))
    → All P leases
    → All P (rebalance_from a node p left leases)
unfolding rebalance_from acquire_partition claim_partition
rebalance_from-All P a node p zero leases f h = h
rebalance_from-All P a node p (suc left) leases f h =
    rebalance_from-All P a node (suc p) left _ f (elim (Option-cases (a.insert_fault p)) [
      | inr (x, e) ↦ rw (e, acquire_partition) h
      | inl e ↦ elim (Bool-cases (is_leased p leases)) [
        | inl c ↦ rw (e, acquire_partition) (rw (c, claim_partition) h)
        | inr c ↦ rw (e, acquire_partition) (rw (c, claim_partition) (f p p, h))
      ]
    ])

-- After a round of a coordinator whose inserts do not fail every partition has a lease, and every lease
-- that was there is still there as it was: the lease of a node that is gone is not taken over.
pub rebalance-IsLeased :
    (a : Claims) (node : String) (partitions q : ℕ) (leases : List Lease) (l : Lease)
    → ((i : ℕ) → a.insert_fault i ≡ none)
    → q < partitions
    → In l leases
    → IsLeased q (rebalance a node partitions leases) × In l (rebalance a node partitions leases)
unfolding rebalance
rebalance-IsLeased a node partitions q leases l f x h = (
  rebalance_from-IsLeased a node 0 partitions leases q f (omega arith) (omega (arith, x)),
  rebalance_from-In a node 0 partitions leases l h,
)

-- The last heartbeat was at most 30 seconds before `now`.
abbrev pub IsFresh : ℕ → Lease → Type 0
IsFresh now l = now ≤ l.heartbeat + lease_time

filter-IsFresh :
    (now : ℕ) (leases all : List Lease)
    → ((l : Lease) → In l leases → In l all)
    → All
        (λ l. IsFresh now l × In l all)
        (filter (λ l. not (ltb (l.heartbeat + lease_time) now)) leases)
filter-IsFresh now [] all f = tt
filter-IsFresh now (l ∷ leases) all f =
    let rest = filter-IsFresh now leases all (λ k h. f k (inr h)) in
    elim (Bool-cases (ltb (l.heartbeat + lease_time) now)) [
      | inl c ↦ rw (c, filter) rest
      | inr c ↦ rw (c, filter) ((ground (arith, c), f l (inl refl)), rest)
    ]

-- When the expired leases are deleted and a node then runs a round of its coordinator without faults,
-- on a clock that does not go back, every partition has a lease whose last heartbeat was at most 30
-- seconds before the deletion: one that was there before, or one of that node.
pub rebalance-release_expired_leases :
    (a : Claims) (node : String) (partitions now : ℕ) (leases : List Lease) (q : ℕ)
    → ((i : ℕ) → a.insert_fault i ≡ none)
    → ((i : ℕ) → now ≤ a.now i)
    → q < partitions
    → (l : Lease) × In l (rebalance a node partitions (release_expired_leases none now leases).1)
      × (l.partition ≡ q)
      × IsFresh now l
      × (In l leases ⊎ (l.node ≡ node))
unfolding rebalance release_expired_leases
rebalance-release_expired_leases a node partitions now leases q f g x =
    let kept = (release_expired_leases none now leases).1 in
    let old = filter-IsFresh now leases leases (λ l h. h) in
    let l = rebalance_from-IsLeased a node 0 partitions kept q f (omega arith) (omega (arith, x)) in
    let all =
      rebalance_from-All (λ k. IsFresh now k × (In k leases ⊎ (k.node ≡ node))) a node 0 partitions
        kept (λ i p. (omega (arith, g i), inr refl))
        (All-map _ _ kept (λ k h. (h.0, inl h.1)) old) in
    let found = All-In _ l.0 _ all l.1 in (l.0, l.1, l.2, found.0, found.1)
