-- ===== src/Events/Consumer/Stuck.antt =====
-- A batch in which the projections refuse every event.
use mathlib.Core.List.{append_assoc, append-nil}
use krampus.Prelude.{
  ℕ, zero, suc, none, List, [], ◌∷◌, ◌≡◌, refl, ap, sym, subst, ◌++◌, ◌∙◌, All, take,
}
use krampus.Domain.Errors.{Error, Result, ok, err, error_text}
use krampus.Events.{DomainEvent, dispatch, events_after}
use krampus.Events.Consumer.{
  EventWorld, EventConsumer, Round, Progress, move_to_dlq, dead_letter, DeadEvent, consume_event,
  consume_events, commit_checkpoint, finish_round, at_start, batch_of, checkpoint_of, consume,
  start,
}
use krampus.Events.Consumer.Settled.{consume-finish_round, finish_round-dead}

-- No statement of the round fails.
pub record IsClean (r : Round) : Type 0 where
  pub get : r.get_fault ≡ none
  pub begin : r.begin_fault ≡ none
  pub query : r.query_fault ≡ none
  pub scan : (i : ℕ) → r.scan_fault i ≡ none
  pub dead : (i : ℕ) → r.dead_fault i ≡ none
  pub save : r.save_fault ≡ none
  pub commit : r.commit_fault ≡ none

-- The events of a batch, `n` times over.
abbrev pub repeated : ℕ → List DomainEvent → List DomainEvent
repeated zero events = []
repeated (suc n) events = events ++ repeated n events

module _ {W : Type 0} (c : EventConsumer W) where
  -- Whatever the view is, the projections refuse the event.
  abbrev pub IsPoison : DomainEvent → Type 0
  IsPoison e = (v : W) → (x : Error) × ((dispatch c.projections e v).0 ≡ err x)

  -- The row is the dead letter of an event that the projections refused: its event, the consumer, the
  -- payload and the error.
  abbrev pub IsLetter : DeadEvent → DomainEvent → Type 0
  IsLetter d e =
      (d.event_id ≡ e.id)
      × (d.consumer_name ≡ c.name)
      × (d.payload ≡ e.payload)
      × (v : W) × (x : Error) × ((dispatch c.projections e v).0 ≡ err x)
      × (d.error ≡ error_text x)

  -- The rows are dead letters of the events, one for each, in order.
  abbrev pub AreLetters : List DeadEvent → List DomainEvent → Type 0
  AreLetters [] [] = Unit
  AreLetters [] (e ∷ events) = ⊥
  AreLetters (d ∷ dead) [] = ⊥
  AreLetters (d ∷ dead) (e ∷ events) = IsLetter d e × AreLetters dead events

  AreLetters-append :
      (ds ds' : List DeadEvent) (es es' : List DomainEvent)
      → AreLetters ds es
      → AreLetters ds' es'
      → AreLetters (ds ++ ds') (es ++ es')
  AreLetters-append [] ds' [] es' h k = k
  AreLetters-append [] ds' (e ∷ es) es' h k = absurd h
  AreLetters-append (d ∷ ds) ds' [] es' h k = absurd h
  AreLetters-append (d ∷ ds) ds' (e ∷ es) es' h k = (h.0, AreLetters-append ds ds' es es' h.1 k)

  -- The rows `after` are the rows `before` and then dead letters of the events.
  abbrev pub HasLetters : List DeadEvent → List DomainEvent → List DeadEvent → Type 0
  HasLetters before events after =
      (added : List DeadEvent) × (after ≡ before ++ added) × AreLetters added events

  HasLetters-trans :
      (ds ds' ds'' : List DeadEvent) (es es' : List DomainEvent)
      → HasLetters ds es ds'
      → HasLetters ds' es' ds''
      → HasLetters ds (es ++ es') ds''
  HasLetters-trans ds ds' ds'' es es' (a, e, h) (b, f, k) =
      (a ++ b, f ∙ ap (λ xs. xs ++ b) e ∙ append_assoc ds a b, AreLetters-append a b es es' h k)

  consume_event-IsPoison :
      (r : Round) (i : ℕ) (e : DomainEvent) (s : Progress W)
      → r.dead_fault i ≡ none
      → IsPoison e
      → ((consume_event c r i e s).processed ≡ s.processed)
        × HasLetters s.dead (e ∷ []) (consume_event c r i e s).dead
  unfolding consume_event move_to_dlq dead_letter
  consume_event-IsPoison r i e s f p =
      simp (f, (p s.view).1, consume_event, move_to_dlq)
        (refl, (_ ∷ [], refl, ((refl, refl, refl, s.view, (p s.view).0, (p s.view).1, refl), tt)))

  consume_events-IsPoison :
      (r : Round) (i : ℕ) (events : List DomainEvent) (s : Progress W)
      → IsClean r
      → All IsPoison events
      → ((consume_events c r i events s).0 ≡ ok tt)
        × ((consume_events c r i events s).1.processed ≡ s.processed)
        × HasLetters s.dead events (consume_events c r i events s).1.dead
  unfolding consume_events
  consume_events-IsPoison r i [] s h p = (refl, refl, ([], sym (append-nil s.dead), tt))
  consume_events-IsPoison r i (e ∷ events) s h p =
      let first = consume_event-IsPoison r i e s (h.dead i) p.0 in
      let rest = consume_events-IsPoison r (suc i) events (consume_event c r i e s) h p.1 in
      rw (h.scan i, consume_events)
        (rest.0, rest.1 ∙ first.0, HasLetters-trans _ _ _ (e ∷ []) events first.1 rest.2)

  finish_round_zero :
      (r : Round) (w : EventWorld W) (s : Result (Unit {0}) × Progress W)
      → IsClean r
      → s.0 ≡ ok tt
      → s.1.processed ≡ 0
      → (finish_round c r w s).1.checkpoints ≡ w.checkpoints
  unfolding finish_round commit_checkpoint
  finish_round_zero r w s h e z = simp (e, z, h.commit, finish_round, commit_checkpoint) refl

  finish_round-events :
      (r : Round) (w : EventWorld W) (s : Result (Unit {0}) × Progress W)
      → (finish_round c r w s).1.events ≡ w.events
  unfolding finish_round
  finish_round-events r w (err x, s) = refl
  finish_round-events r w (ok u, s) = refl

  consume-IsPoison :
      (r : Round) (w : EventWorld W)
      → IsClean r
      → All IsPoison (batch_of c w)
      → ((consume c r w).1.checkpoints ≡ w.checkpoints)
        × ((consume c r w).1.events ≡ w.events)
        × HasLetters w.dead (batch_of c w) (consume c r w).1.dead
  consume-IsPoison r w h p =
      let loop = consume_events-IsPoison r 0 (batch_of c w) (at_start w) h p in
      rw (consume-finish_round c r w h.get h.begin h.query) (
        finish_round_zero r w _ h loop.0 loop.1,
        finish_round-events r w _,
        rw (finish_round-dead c r w (consume_events c r 0 (batch_of c w) (at_start w))) loop.2,
      )

  batch_of_same :
      (w v : EventWorld W)
      → v.checkpoints ≡ w.checkpoints
      → v.events ≡ w.events
      → batch_of c v ≡ batch_of c w
  batch_of_same w v h e =
      ap (λ m. take c.batch_size (events_after (checkpoint_of c.name m) v.events)) h
      ∙ ap (λ es. take c.batch_size (events_after (checkpoint_of c.name w.checkpoints) es)) e

  -- When the projections refuse every event of the batch after the checkpoint, in whatever view, rounds
  -- without faults never get past it: after `n` rounds the checkpoints are the same, the next batch is
  -- the same, and the dead letters have, after what they had, one row for each event of the batch in
  -- each round, in order, with the event, the consumer, the payload and an error of the projections.
  pub start-IsPoison :
      (rounds : ℕ → Round) (n : ℕ) (w : EventWorld W)
      → ((i : ℕ) → IsClean (rounds i))
      → All IsPoison (batch_of c w)
      → ((start c rounds n w).checkpoints ≡ w.checkpoints)
        × (batch_of c (start c rounds n w) ≡ batch_of c w)
        × HasLetters w.dead (repeated n (batch_of c w)) (start c rounds n w).dead
  unfolding start
  start-IsPoison rounds zero w h p = (refl, refl, ([], sym (append-nil w.dead), tt))
  start-IsPoison rounds (suc n) w h p =
      let v = (consume c (rounds n) w).1 in
      let one = consume-IsPoison (rounds n) w (h n) p in
      let same = batch_of_same w v one.0 one.1 in
      let rest = start-IsPoison rounds n v h (rw (same) p) in
      (
        rest.0 ∙ one.0,
        rest.1 ∙ same,
        HasLetters-trans _ _ _ (batch_of c w) (repeated n (batch_of c w)) one.2
            (subst (λ es. HasLetters v.dead (repeated n es) (start c rounds n v).dead) same rest.2),
      )
