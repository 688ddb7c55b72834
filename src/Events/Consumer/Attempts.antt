-- ===== src/Events/Consumer/Attempts.antt =====
-- What a round hands to the projections, as a list of events and answers, and where each event of a
-- batch ends.
use krampus.Prelude.{
  ℕ, suc, none, List, [], ◌∷◌, ◌≡◌, ◌⊎◌, refl, ap, subst, inl, inr, In, In-append, Option-cases,
}
use krampus.Domain.Errors.{Error, Result, ok, Result-cases}
use krampus.Events.{DomainEvent, dispatch}
use krampus.Events.Consumer.{
  DeadEvent, EventConsumer, Round, Progress, dead_letter, move_to_dlq, consume_event,
  consume_events,
}

module _ {W : Type 0} (c : EventConsumer W) where
  -- The answers of the projections to the events, each event handed on after the ones before it.
  unfoldable pub attempts : List DomainEvent → W → List (DomainEvent × Result (Unit {0}))
  attempts [] w = []
  attempts (e ∷ events) w =
      (e, (dispatch c.projections e w).0) ∷ attempts events (dispatch c.projections e w).1

  -- An event was accepted by the projections, or it has a dead letter.
  abbrev pub IsSettled : DomainEvent → List DomainEvent → W → List DeadEvent → Type 0
  IsSettled e events w dead =
      In (e, ok tt) (attempts events w) ⊎ ((x : Error) × In (dead_letter c.name e x) dead)

  consume_event-In :
      (r : Round) (i : ℕ) (e : DomainEvent) (s : Progress W) (d : DeadEvent)
      → In d s.dead
      → In d (consume_event c r i e s).dead
  unfolding consume_event move_to_dlq
  consume_event-In r i e s d h = elim (Result-cases (dispatch c.projections e s.view).0) [
    | inr (u, q) ↦ simp (q, consume_event) h
    | inl (x, q) ↦ elim (Option-cases (r.dead_fault i)) [
      | inr (t, f) ↦ simp (q, f, consume_event, move_to_dlq) h
      | inl f ↦ simp (q, f, consume_event, move_to_dlq) (In-append d s.dead _ (inl h))
    ]
  ]

  consume_events-In :
      (r : Round) (i : ℕ) (events : List DomainEvent) (s : Progress W) (d : DeadEvent)
      → In d s.dead
      → In d (consume_events c r i events s).1.dead
  unfolding consume_events
  consume_events-In r i [] s d h = h
  consume_events-In r i (e ∷ events) s d h = elim (Option-cases (r.scan_fault i)) [
    | inr (t, f) ↦ rw (f, consume_events) h
    | inl f ↦
        rw (f, consume_events)
          (consume_events-In r (suc i) events (consume_event c r i e s) d
            (consume_event-In r i e s d h))
  ]

  consume_event-view :
      (r : Round) (i : ℕ) (e : DomainEvent) (s : Progress W)
      → (consume_event c r i e s).view ≡ (dispatch c.projections e s.view).1
  unfolding consume_event
  consume_event-view r i e s = elim (Result-cases (dispatch c.projections e s.view).0) [
    | inr (u, q) ↦ simp (q, consume_event) refl
    | inl (x, q) ↦ simp (q, consume_event) refl
  ]

  consume_event-IsSettled :
      (r : Round) (i : ℕ) (e : DomainEvent) (s : Progress W)
      → r.dead_fault i ≡ none
      → ((dispatch c.projections e s.view).0 ≡ ok tt)
        ⊎ ((x : Error) × In (dead_letter c.name e x) (consume_event c r i e s).dead)
  unfolding consume_event move_to_dlq
  consume_event-IsSettled r i e s f = elim (Result-cases (dispatch c.projections e s.view).0) [
    | inr (u, q) ↦ inl q
    | inl (x, q) ↦
        inr (x, simp (q, f, consume_event, move_to_dlq) (In-append _ s.dead _ (inr (inl refl))))
  ]

  consume_events-IsSettled_head :
      (r : Round) (i : ℕ) (events : List DomainEvent) (s : Progress W) (e : DomainEvent)
      → r.dead_fault i ≡ none
      → IsSettled e
          (e ∷ events)
          s.view
          (consume_events c r (suc i) events (consume_event c r i e s)).1.dead
  unfolding attempts
  consume_events-IsSettled_head r i events s e g = elim (consume_event-IsSettled r i e s g) [
    | inl q ↦ inl (inl (ap (λ a. (e, a)) q))
    | inr (x, m) ↦ inr (x, consume_events-In r (suc i) events (consume_event c r i e s) _ m)
  ]

  IsSettled-cons :
      (d e : DomainEvent) (events : List DomainEvent) (w v : W) (dead : List DeadEvent)
      → v ≡ (dispatch c.projections d w).1
      → IsSettled e events v dead
      → IsSettled e (d ∷ events) w dead
  unfolding attempts
  IsSettled-cons d e events w v dead q (inl m) =
      inl (inr (subst (λ z. In (e, ok tt) (attempts events z)) q m))
  IsSettled-cons d e events w v dead q (inr m) = inr m

  -- The loop settles every event of its batch, when its statements do not fail.
  pub consume_events-IsSettled :
      (r : Round) (i : ℕ) (events : List DomainEvent) (s : Progress W) (e : DomainEvent)
      → ((j : ℕ) → r.scan_fault j ≡ none)
      → ((j : ℕ) → r.dead_fault j ≡ none)
      → In e events
      → IsSettled e events s.view (consume_events c r i events s).1.dead
  unfolding attempts consume_events
  consume_events-IsSettled r i [] s e f g h = absurd h
  consume_events-IsSettled r i (d ∷ events) s e f g (inl h) =
      rw (f i, consume_events)
        (subst
          (λ z.
            IsSettled z (d ∷ events) s.view
              (consume_events c r (suc i) events (consume_event c r i d s)).1.dead)
          h (consume_events-IsSettled_head r i events s d (g i)))
  consume_events-IsSettled r i (d ∷ events) s e f g (inr h) =
      rw (f i, consume_events)
        (IsSettled-cons d e events s.view _ _ (consume_event-view r i d s)
          (consume_events-IsSettled r (suc i) events (consume_event c r i d s) e f g h))
