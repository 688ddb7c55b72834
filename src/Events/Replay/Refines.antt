-- ===== src/Events/Replay/Refines.antt =====
-- The loop of `Replay` against its specification: hand the events above a number to the projections
-- once each, in order, and stop at the first error.
use krampus.Prelude.{
  ℕ, zero, suc, Option, none, some, List, [], ◌∷◌, ◌++◌, ◌≡◌, ◌<◌, ◌+◌, inl, inr, refl, sym, ap,
  ◌∙◌, subst, length, take, arith, Option-cases, ℕ-cases,
}
use krampus.Prelude.Order.{last_key, HasDistinctKeys}
use krampus.Domain.Errors.{Error, Result, ok, err, Result-cases}
use krampus.Storage.Fault.{Fault}
use krampus.Events.{DomainEvent, Handler, by_sequence, dispatch, events_after, select_events}
use krampus.Prelude.Paging.{drop, drop-none, length-drop-lt, take-drop}
use krampus.Events.Paging.{events_after-page}
use krampus.Events.Replay.{end_turn, Fetch, Replayed, replay_rows, replay}

module _ {W : Type 0} (handlers : List (Handler W)) where
  unfoldable pub dispatch_all : List DomainEvent → W → Result (Unit {0}) × W
  dispatch_all [] w = (ok tt, w)
  dispatch_all (e ∷ events) w = elim (dispatch handlers e w).0 [
    | err x ↦ (err x, (dispatch handlers e w).1)
    | ok u ↦ dispatch_all events (dispatch handlers e w).1
  ]

  dispatch_all-append_ok :
      (xs ys : List DomainEvent) (w : W)
      → (dispatch_all xs w).0 ≡ ok tt
      → dispatch_all (xs ++ ys) w ≡ dispatch_all ys (dispatch_all xs w).1
  unfolding dispatch_all
  dispatch_all-append_ok [] ys w h = refl
  dispatch_all-append_ok (e ∷ xs) ys w h = elim (Result-cases (dispatch handlers e w).0) [
    | inl (x, c) ↦ ground (arith, c)
    | inr (u, c) ↦ ground (arith, c, dispatch_all-append_ok xs ys (dispatch handlers e w).1)
  ]

  dispatch_all-append_err :
      (xs ys : List DomainEvent) (w : W) (x : Error)
      → (dispatch_all xs w).0 ≡ err x
      → dispatch_all (xs ++ ys) w ≡ dispatch_all xs w
  unfolding dispatch_all
  dispatch_all-append_err [] ys w x h = cc
  dispatch_all-append_err (e ∷ xs) ys w x h = elim (Result-cases (dispatch handlers e w).0) [
    | inl (y, c) ↦ ground (arith, c)
    | inr (u, c) ↦ ground (arith, c, dispatch_all-append_err xs ys (dispatch handlers e w).1 x)
  ]

  -- The loop over a batch ends with an error, or has handed every row on.
  pub data Reads (scan : ℕ → Fault) (events : List DomainEvent) (s : Replayed W)
      : Result (Unit {0}) × Replayed W → Type 0 where
    refused :
        (x : Error) (t : Replayed W)
        → (((i : ℕ) → scan i ≡ none) → dispatch_all events s.view ≡ (err x, t.view))
        → Reads scan events s (err x, t)
    finished :
        (t : Replayed W)
        → t.from ≡ last_key by_sequence s.from events
        → t.count ≡ s.count + length events
        → dispatch_all events s.view ≡ (ok tt, t.view)
        → Reads scan events s (ok tt, t)

  -- One row more in front.
  Reads-cons :
      (scan : ℕ → Fault) (e : DomainEvent) (events : List DomainEvent) (s t : Replayed W)
      → (dispatch handlers e s.view).0 ≡ ok tt
      → t.from ≡ e.sequence
      → t.count ≡ suc s.count
      → t.view ≡ (dispatch handlers e s.view).1
      → (r : Result (Unit {0}) × Replayed W) → Reads scan events t r
      → Reads scan (e ∷ events) s r
  unfolding dispatch_all
  Reads-cons scan e events s t c f n v r (refused x t' h) =
      refused x t' (λ q.
        simp (c, dispatch_all) (subst (λ w. dispatch_all events w ≡ (err x, t'.view)) v (h q)))
  Reads-cons scan e events s t c f n v r (finished t' g m h) =
      finished t' (g ∙ ap (λ n. last_key by_sequence n events) f) (omega (arith, n, m))
        (simp (c, dispatch_all) (subst (λ w. dispatch_all events w ≡ (ok tt, t'.view)) v h))

  pub replay_rows-Reads :
      (scan : ℕ → Fault) (events : List DomainEvent) (s : Replayed W)
      → Reads scan events s (replay_rows handlers scan events s)
  unfolding replay_rows dispatch_all
  replay_rows-Reads scan [] s = finished s refl (omega arith) refl
  replay_rows-Reads scan (e ∷ events) s = elim (Option-cases (scan s.count)) [
    | inr (text, f) ↦ simp (f, replay_rows) (refused _ s (λ q. absurd (let z = q s.count in cc)))
    | inl f ↦ elim (Result-cases (dispatch handlers e s.view).0) [
      | inl (x, c) ↦ simp (f, c, replay_rows) (refused x _ (λ q. simp (c, dispatch_all) refl))
      | inr (u, c) ↦
          simp (f, c, replay_rows)
            (Reads-cons scan e events s _ c refl refl refl _ (replay_rows-Reads scan events _))
    ]
  ]

-- The end of a turn that read `seen`, when the turns after it hand on `rest`.
module _ {W : Type 0} (handlers : List (Handler W)) (seen rest : List DomainEvent) where
  end_turn-dispatch_all :
      (scan : ℕ → Fault) (next : ℕ → W → Option (Result (Unit {0}) × W)) (s : Replayed W)
      (r : Result (Unit {0}) × Replayed W)
      → s.count ≡ 0
      → (length seen ≡ 0 → rest ≡ [])
      → ((i : ℕ) → scan i ≡ none)
      → ((w : W)
          → 0 < length seen
          → next (last_key by_sequence s.from seen) w ≡ some (dispatch_all handlers rest w))
      → Reads handlers scan seen s r
      → end_turn next r ≡ some (dispatch_all handlers (seen ++ rest) s.view)
  unfolding end_turn dispatch_all
  end_turn-dispatch_all scan next s r z e q k (refused x t h) =
      ap some (
        sym (h q) ∙ sym (dispatch_all-append_err handlers seen rest s.view x (ap (λ p. p.0) (h q))))
  end_turn-dispatch_all scan next s r z e q k (finished t f n h) =
      let whole : dispatch_all handlers (seen ++ rest) s.view ≡ dispatch_all handlers rest t.view =
        dispatch_all-append_ok handlers seen rest s.view (ap (λ p. p.0) h)
        ∙ ap (λ p. dispatch_all handlers rest p.1) h in
      elim (ℕ-cases t.count) [
        | inl c ↦
            let last : rest ≡ [] = e (omega (arith, n, c)) in
            simp (c) (ap some (sym (whole ∙ ap (λ es. dispatch_all handlers es t.view) last)))
        | inr (m, c) ↦ simp (c, f) (k t.view (omega (arith, n, c, z)) ∙ ap some (sym whole))
      ]

module _ {W : Type 0} (handlers : List (Handler W)) (rows : List DomainEvent)
    (distinct : HasDistinctKeys by_sequence rows) where
  -- Of rows with distinct sequence numbers, with a batch size above 0, statements that do not fail and
  -- more fuel than there are events above `from`, `replay` ends, and its answer and its view are those
  -- of handing the events above `from` to the projections once each, in the order of their sequence
  -- numbers, up to the first error.
  pub replay-dispatch_all :
      (fetches : ℕ → Fetch) (batch fuel from : ℕ) (w : W)
      → ((i : ℕ) → (fetches i).query_fault ≡ none)
      → ((i j : ℕ) → (fetches i).scan_fault j ≡ none)
      → length (events_after from rows) < fuel
      → replay handlers fetches rows (suc batch) fuel from w
        ≡ some (dispatch_all handlers (events_after from rows) w)
  unfolding replay select_events
  replay-dispatch_all fetches batch zero from w q r h = absurd (omega (arith, h))
  replay-dispatch_all fetches batch (suc fuel) from w q r h =
      let seen : List DomainEvent = take (suc batch) (events_after from rows) in
      let rest : List DomainEvent = drop (suc batch) (events_after from rows) in
      let page : events_after (last_key by_sequence from seen) rows ≡ rest =
        events_after-page rows distinct from (suc batch) in
      rw (q fuel, replay, select_events)
        (end_turn-dispatch_all handlers seen rest _ _ _ _ refl
            (drop-none batch (events_after from rows)) (r fuel)
            (λ w' l.
              replay-dispatch_all fetches batch fuel _ w' q r
                (rw (page) (omega (arith, h, length-drop-lt batch (events_after from rows) l)))
              ∙ rw (page) refl)
            (replay_rows-Reads handlers (fetches fuel).scan_fault seen _)
          ∙ ap (λ es. some (dispatch_all handlers es w))
              (take-drop (suc batch) (events_after from rows)))
