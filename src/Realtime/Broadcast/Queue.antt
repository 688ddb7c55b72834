-- ===== src/Realtime/Broadcast/Queue.antt =====
-- The delivery queue under a broadcast: what is added, in which order, and how far it fills.
use krampus.Prelude.{
  ℕ, suc, ◌+◌, ◌≤◌, ◌≡◌, refl, sym, ◌∙◌, List, [], ◌∷◌, ◌++◌, arith, length, length-append, min,
}
use mathlib.Core.List.{append_assoc, append-nil}
use krampus.Domain.Message.{Message, DeliveryJob, GoLib}
use krampus.Realtime.Client.{TransportClient}
use krampus.Realtime.Broadcast.{queue_capacity, offer, job_for, offer_all}

-- the jobs of a loop over recipients
unfoldable pub jobs_for :
    GoLib → (ℕ → ℕ) → ℕ → Message → (ℕ → TransportClient) → List ℕ → List DeliveryJob
jobs_for lib clock i msg heap [] = []
jobs_for lib clock i msg heap (c ∷ cs) =
    job_for lib (clock i) msg (heap c) ∷ jobs_for lib clock (suc i) msg heap cs

length-offer :
    (job : DeliveryJob) (q : List DeliveryJob)
    → length q ≤ queue_capacity
    → length (offer job q) ≡ min (length q + 1) queue_capacity
unfolding offer
length-offer job q h = ground (arith, length-append q (job ∷ []))

module _ (lib : GoLib) (clock : ℕ → ℕ) (msg : Message) (heap : ℕ → TransportClient) where
  -- A broadcast fills the queue to its capacity and no further: jobs past it are dropped.
  pub length-offer_all :
      (i : ℕ) (cs : List ℕ) (q : List DeliveryJob)
      → length q ≤ queue_capacity
      → length (offer_all lib clock i msg heap cs q) ≡ min (length q + length cs) queue_capacity
  unfolding offer_all
  length-offer_all i [] q h = omega arith
  length-offer_all i (c ∷ cs) q h =
      let q' = offer (job_for lib (clock i) msg (heap c)) q in
      omega (
        arith,
        length-offer (job_for lib (clock i) msg (heap c)) q h,
        length-offer_all (suc i) cs q',
      )

  -- With room for all of them, each recipient's job goes to the end, in the order of the recipients.
  pub offer_all_room :
      (i : ℕ) (cs : List ℕ) (q : List DeliveryJob)
      → length q + length cs ≤ queue_capacity
      → offer_all lib clock i msg heap cs q ≡ q ++ jobs_for lib clock i msg heap cs
  unfolding offer_all jobs_for
  offer_all_room i [] q h = sym (append-nil q)
  offer_all_room i (c ∷ cs) q h =
      let job = job_for lib (clock i) msg (heap c) in
      let fits : offer job q ≡ q ++ job ∷ [] = unfold offer in ground (arith) in
      rw fits (
        offer_all_room (suc i) cs (q ++ job ∷ []) (omega (arith, length-append q (job ∷ [])))
        ∙ append_assoc q (job ∷ []) (jobs_for lib clock (suc i) msg heap cs))

  -- A full queue takes nothing, and what waited in it stays.
  pub offer_all_full :
      (i : ℕ) (cs : List ℕ) (q : List DeliveryJob)
      → queue_capacity ≤ length q
      → offer_all lib clock i msg heap cs q ≡ q
  unfolding offer_all
  offer_all_full i [] q h = refl
  offer_all_full i (c ∷ cs) q h =
      let same : offer (job_for lib (clock i) msg (heap c)) q ≡ q =
        unfold offer in ground (arith) in
      rw same (offer_all_full (suc i) cs q h)
