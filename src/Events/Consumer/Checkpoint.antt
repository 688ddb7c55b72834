-- ===== src/Events/Consumer/Checkpoint.antt =====
-- The checkpoint of a consumer over a round.
use krampus.Prelude.{
  ℕ, suc, String, true, List, [], ◌∷◌, ◌≡◌, ◌≢◌, ◌≤◌, ◌<◌, ◌⊎◌, refl, inl, inr, All, All-map,
  All-take, ltb, arith, Option-cases, Bool-cases,
}
use krampus.Prelude.Dict.{Dict, lookup, insert, lookup-insert_self, lookup-insert_ne}
use krampus.Domain.Errors.{Error, Result, ok, err, Result-cases}
use krampus.Events.{DomainEvent, dispatch, select_events}
use krampus.Events.Paging.{events_after-All}
use krampus.Events.Consumer.{
  EventWorld, EventConsumer, Round, Progress, checkpoint_of, get_checkpoint, save_checkpoint,
  consume_event, consume_events, commit_checkpoint, finish_round, at_start, batch_of, consume,
}

pub checkpoint_of-insert :
    (name : String) (n : ℕ) (rows : Dict ℕ) → checkpoint_of name (insert name n rows) ≡ n
checkpoint_of-insert name n rows = rw (lookup-insert_self name n rows, checkpoint_of) refl

All-Unit : (events : List DomainEvent) → All (λ e. Unit {0}) events
All-Unit [] = tt
All-Unit (e ∷ events) = (tt, All-Unit events)

module _ {W : Type 0} (c : EventConsumer W) (r : Round) where
  -- What the loop leaves in `processed` is what it found there or the number of an event of the batch.
  consume_events-processed :
      (i : ℕ) (events : List DomainEvent) (s : Progress W) (P : ℕ → Type 0)
      → P s.processed
      → All (λ e. P e.sequence) events
      → P (consume_events c r i events s).1.processed
  unfolding consume_events consume_event
  consume_events-processed i [] s P p h = p
  consume_events-processed i (e ∷ events) s P p h = elim (Option-cases (r.scan_fault i)) [
    | inr (t, f) ↦ rw (f, consume_events) p
    | inl f ↦ elim (Result-cases (dispatch c.projections e s.view).0) [
      | inl (x, q) ↦
          rw (f, consume_events)
            (consume_events-processed (suc i) events _ P (simp (q, consume_event) p) h.1)
      | inr (u, q) ↦
          rw (f, consume_events)
            (consume_events-processed (suc i) events _ P (simp (q, consume_event) h.0) h.1)
    ]
  ]

  -- The checkpoints after a round: as they were, or with the checkpoint of this consumer at a number
  -- that `P` holds of.
  pub data Moves (P : ℕ → Type 0) (rows : Dict ℕ) : Result (Unit {0}) → Dict ℕ → Type 0 where
    stays : (a : Result (Unit {0})) → Moves P rows a rows
    moves : (n : ℕ) → P n → Moves P rows (ok tt) (insert c.name n rows)

  above_zero : (n : ℕ) (P : ℕ → Type 0) → (n ≡ 0) ⊎ P n → ltb 0 n ≡ true → P n
  above_zero n P (inl e) z = absurd (ground (arith, e, z))
  above_zero n P (inr p) z = p

  commit_checkpoint-Moves :
      (P : ℕ → Type 0) (n : ℕ) (rows : Dict ℕ)
      → (n ≡ 0) ⊎ P n
      → Moves P rows (commit_checkpoint c r n rows).0 (commit_checkpoint c r n rows).1
  unfolding commit_checkpoint save_checkpoint
  commit_checkpoint-Moves P n rows h = elim (Bool-cases (ltb 0 n)) [
    | inl z ↦ elim (Option-cases r.save_fault) [
      | inr (x, f) ↦ simp (z, f, commit_checkpoint, save_checkpoint) (stays _)
      | inl f ↦ elim (Option-cases r.commit_fault) [
        | inr (x, g) ↦ simp (z, f, g, commit_checkpoint, save_checkpoint) (stays _)
        | inl g ↦ simp (z, f, g, commit_checkpoint, save_checkpoint) (moves n (above_zero n P h z))
      ]
    ]
    | inr z ↦ elim (Option-cases r.commit_fault) [
      | inr (x, g) ↦ simp (z, g, commit_checkpoint) (stays _)
      | inl g ↦ simp (z, g, commit_checkpoint) (stays _)
    ]
  ]

  finish_round-Moves :
      (P : ℕ → Type 0) (w : EventWorld W) (s : Result (Unit {0}) × Progress W)
      → (s.1.processed ≡ 0) ⊎ P s.1.processed
      → Moves P w.checkpoints (finish_round c r w s).0 (finish_round c r w s).1.checkpoints
  unfolding finish_round
  finish_round-Moves P w (err x, s) h = stays (err x)
  finish_round-Moves P w (ok u, s) h = commit_checkpoint-Moves P s.processed w.checkpoints h

  pub consume-Moves :
      (P : ℕ → Type 0) (w : EventWorld W)
      → All (λ e. P e.sequence) (batch_of c w)
      → Moves P w.checkpoints (consume c r w).0 (consume c r w).1.checkpoints
  unfolding consume get_checkpoint select_events
  consume-Moves P w h = elim (Option-cases r.get_fault) [
    | inr (x, f) ↦ simp (f, consume, get_checkpoint) (stays _)
    | inl f ↦ elim (Option-cases r.begin_fault) [
      | inr (x, g) ↦ simp (f, g, consume, get_checkpoint) (stays _)
      | inl g ↦ elim (Option-cases r.query_fault) [
        | inr (x, q) ↦ simp (f, g, q, consume, get_checkpoint, select_events) (stays _)
        | inl q ↦
            simp (f, g, q, consume, get_checkpoint, select_events)
              (finish_round-Moves P w _ (
                consume_events-processed 0 (batch_of c w) (at_start w) (λ n. (n ≡ 0) ⊎ P n)
                  (inl refl)
                  (All-map (λ e. P e.sequence) (λ e. (e.sequence ≡ 0) ⊎ P e.sequence) (batch_of c w)
                    (λ e p. inr p) h)))
      ]
    ]
  ]

  Moves-checkpoint :
      (rows : Dict ℕ) (a : Result (Unit {0})) (rows' : Dict ℕ) (other : String)
      → c.name ≢ other
      → Moves (λ n. checkpoint_of c.name rows < n) rows a rows'
      → (checkpoint_of c.name rows ≤ checkpoint_of c.name rows')
        × (lookup other rows' ≡ lookup other rows)
  Moves-checkpoint rows a rows' other h (stays _) = (omega arith, refl)
  Moves-checkpoint rows a rows' other h (moves n l) =
      (omega (arith, l, checkpoint_of-insert c.name n rows), lookup-insert_ne c.name other n rows h)

  -- Whatever fails in a round, the checkpoint of the consumer does not fall, and the checkpoints of
  -- other consumers stay as they were.
  pub consume_checkpoint :
      (w : EventWorld W) (other : String)
      → c.name ≢ other
      → (checkpoint_of c.name w.checkpoints ≤ checkpoint_of c.name (consume c r w).1.checkpoints)
        × (lookup other (consume c r w).1.checkpoints ≡ lookup other w.checkpoints)
  consume_checkpoint w other h = Moves-checkpoint w.checkpoints _ _ other h (
      consume-Moves (λ n. checkpoint_of c.name w.checkpoints < n) w
        (All-take (λ e. checkpoint_of c.name w.checkpoints < e.sequence) c.batch_size _
          (events_after-All w.events (checkpoint_of c.name w.checkpoints))))

  Moves-err :
      (P : ℕ → Type 0) (rows : Dict ℕ) (a : Result (Unit {0})) (rows' : Dict ℕ) (x : Error)
      → a ≡ err x
      → Moves P rows a rows'
      → rows' ≡ rows
  Moves-err P rows a rows' x e (stays _) = refl
  Moves-err P rows a rows' x e (moves n p) = absurd (let q = e in cc)

  -- A round that answers with an error leaves every checkpoint as it was, so that the next round reads
  -- the same events again.
  pub consume_err :
      (w : EventWorld W) (x : Error)
      → (consume c r w).0 ≡ err x
      → (consume c r w).1.checkpoints ≡ w.checkpoints
  consume_err w x e =
      Moves-err (λ n. Unit {0}) w.checkpoints _ _ x e
        (consume-Moves (λ n. Unit {0}) w (All-Unit (batch_of c w)))
