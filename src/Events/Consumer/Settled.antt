-- ===== src/Events/Consumer/Settled.antt =====
-- Where the events between the old checkpoint and the new one ended.
use krampus.Prelude.{
  ℕ, zero, suc, none, List, [], ◌∷◌, ◌≡◌, ◌≤◌, ◌<◌, refl, ap, ◌∙◌, inl, inr, In, All, All-In, take,
  arith,
}
use krampus.Prelude.Dict.{Dict}
use krampus.Prelude.Order.{HasDistinctKeys, IsAscending}
use krampus.Domain.Errors.{Result, ok, err}
use krampus.Events.{DomainEvent, by_sequence, events_after, select_events}
use krampus.Events.Paging.{events_after-IsAscending, events_after-In}
use krampus.Events.Consumer.Attempts.{IsSettled, consume_events-IsSettled}
use krampus.Events.Consumer.{
  EventWorld, EventConsumer, Round, Progress, checkpoint_of, get_checkpoint, consume_events,
  finish_round, at_start, batch_of, consume,
}
use krampus.Events.Consumer.Checkpoint.{checkpoint_of-insert, Moves, stays, moves, consume-Moves}

-- A row at or below a row that was read was read.
In-take :
    (k : ℕ) (rows : List DomainEvent) (e d : DomainEvent)
    → IsAscending by_sequence rows
    → In e rows
    → In d (take k rows)
    → e.sequence ≤ d.sequence
    → In e (take k rows)
In-take zero rows e d a m n l = absurd n
In-take (suc k) [] e d a m n l = absurd n
In-take (suc k) (x ∷ rows) e d a (inl h) n l = inl h
In-take (suc k) (x ∷ rows) e d a (inr h) (inl q) l = absurd (
    let below = All-In (λ f. x.sequence < f.sequence) e rows a.0 h in
    omega (arith, below, l, ap by_sequence q))
In-take (suc k) (x ∷ rows) e d a (inr h) (inr q) l = inr (In-take k rows e d a.1 h q l)

All-self :
    (rows all : List DomainEvent)
    → ((d : DomainEvent) → In d rows → In d all)
    → All (λ e. (d : DomainEvent) × In d all × (d.sequence ≡ e.sequence)) rows
All-self [] all f = tt
All-self (x ∷ rows) all f = ((x, f x (inl refl), refl), All-self rows all (λ d h. f d (inr h)))

module _ {W : Type 0} (c : EventConsumer W) (r : Round) (w : EventWorld W) where
  -- A round whose reads do not fail is its loop and its commit.
  pub consume-finish_round :
      r.get_fault ≡ none
      → r.begin_fault ≡ none
      → r.query_fault ≡ none
      → consume c r w ≡ finish_round c r w (consume_events c r 0 (batch_of c w) (at_start w))
  unfolding consume get_checkpoint select_events
  consume-finish_round f g q = simp (f, g, q, consume, get_checkpoint, select_events) refl

  pub finish_round-dead :
      (s : Result (Unit {0}) × Progress W) → (finish_round c r w s).1.dead ≡ s.1.dead
  unfolding finish_round
  finish_round-dead (err x, s) = refl
  finish_round-dead (ok u, s) = refl

  consume-dead :
      r.get_fault ≡ none
      → r.begin_fault ≡ none
      → r.query_fault ≡ none
      → (consume c r w).1.dead ≡ (consume_events c r 0 (batch_of c w) (at_start w)).1.dead
  consume-dead f g q = ap (λ z. z.1.dead) (consume-finish_round f g q) ∙ finish_round-dead _

  Moves-read :
      (rows : Dict ℕ) (a : Result (Unit {0})) (rows' : Dict ℕ) (batch : List DomainEvent) (n : ℕ)
      → Moves c r (λ n. (d : DomainEvent) × In d batch × (d.sequence ≡ n)) rows a rows'
      → checkpoint_of c.name rows < n
      → n ≤ checkpoint_of c.name rows'
      → (d : DomainEvent) × In d batch × (n ≤ d.sequence)
  Moves-read rows a rows' batch n (stays _) l h = absurd (omega (arith, l, h))
  Moves-read rows a rows' batch n (moves m p) l h =
      (p.0, p.1, omega (arith, h, checkpoint_of-insert c.name m rows, p.2))

  -- Of events with distinct sequence numbers, and when reading and dead letters do not fail, an event
  -- above the old checkpoint and not above the new one was accepted by the projections in this round or
  -- has a dead letter.
  pub consume_loses_none :
      (e : DomainEvent)
      → HasDistinctKeys by_sequence w.events
      → r.get_fault ≡ none
      → r.begin_fault ≡ none
      → r.query_fault ≡ none
      → ((j : ℕ) → r.scan_fault j ≡ none)
      → ((j : ℕ) → r.dead_fault j ≡ none)
      → In e w.events
      → checkpoint_of c.name w.checkpoints < e.sequence
      → e.sequence ≤ checkpoint_of c.name (consume c r w).1.checkpoints
      → IsSettled c e (batch_of c w) w.view (consume c r w).1.dead
  consume_loses_none e d f g q s t m l h =
      let read =
        Moves-read w.checkpoints _ _ (batch_of c w) e.sequence
          (consume-Moves c r _ w (All-self (batch_of c w) (batch_of c w) (λ x y. y))) l h in
      rw (consume-dead f g q) (
        consume_events-IsSettled c r 0 (batch_of c w) (at_start w) e s t (
          In-take c.batch_size (events_after (checkpoint_of c.name w.checkpoints) w.events) e read.0
            (events_after-IsAscending w.events d _) (events_after-In w.events _ e m l) read.1
            read.2))
