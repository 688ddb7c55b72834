-- ===== src/Events/Replay/Halts.antt =====
-- The loop of `Replay` comes to an end, whatever fails on the way.
use krampus.Prelude.{
  ℕ, zero, suc, Option, none, List, ◌≡◌, ◌≢◌, ◌<◌, refl, length, take, arith, inl, inr, ℕ-cases,
  Option-cases,
}
use krampus.Prelude.Order.{last_key, HasDistinctKeys}
use krampus.Domain.Errors.{Result}
use krampus.Storage.Fault.{Fault}
use krampus.Events.{DomainEvent, Handler, by_sequence, events_after, select_events}
use krampus.Prelude.Paging.{drop, length-drop-lt}
use krampus.Events.Paging.{events_after-page}
use krampus.Events.Replay.{Fetch, Replayed, end_turn, replay}
use krampus.Events.Replay.Refines.{Reads, refused, finished, replay_rows-Reads}

module _ {W : Type 0} (handlers : List (Handler W)) where
  end_turn_halts :
      (seen : List DomainEvent) (scan : ℕ → Fault) (next : ℕ → W → Option (Result (Unit {0}) × W))
      (s : Replayed W) (r : Result (Unit {0}) × Replayed W)
      → s.count ≡ 0
      → ((w : W) → 0 < length seen → next (last_key by_sequence s.from seen) w ≢ none)
      → Reads handlers scan seen s r
      → end_turn next r ≢ none
  unfolding end_turn
  end_turn_halts seen scan next s r z k (refused x t h) = λ e. cc
  end_turn_halts seen scan next s r z k (finished t f n h) = elim (ℕ-cases t.count) [
    | inl c ↦ simp (c) (λ e. cc)
    | inr (m, c) ↦ simp (c, f) (k t.view (omega (arith, n, c, z)))
  ]

  -- Of rows with distinct sequence numbers and with a batch size above 0, `replay` ends, whichever of
  -- its statements fail, when it has more fuel than there are events above `from`.
  pub replay_halts :
      (rows : List DomainEvent) (fetches : ℕ → Fetch) (batch fuel from : ℕ) (w : W)
      → HasDistinctKeys by_sequence rows
      → length (events_after from rows) < fuel
      → replay handlers fetches rows (suc batch) fuel from w ≢ none
  unfolding replay select_events
  replay_halts rows fetches batch zero from w d h = absurd (omega (arith, h))
  replay_halts rows fetches batch (suc fuel) from w d h =
      elim (Option-cases (fetches fuel).query_fault) [
        | inr (x, q) ↦ rw (q, replay, select_events) (λ e. cc)
        | inl q ↦
            let seen : List DomainEvent = take (suc batch) (events_after from rows) in
            let page : events_after (last_key by_sequence from seen) rows
                ≡ drop (suc batch) (events_after from rows) =
              events_after-page rows d from (suc batch) in
            rw (q, replay, select_events)
              (end_turn_halts seen _ _ _ _ refl
                (λ w' l.
                  replay_halts rows fetches batch fuel _ w' d
                    (rw (page) (omega (arith, h, length-drop-lt batch (events_after from rows) l))))
                (replay_rows-Reads handlers (fetches fuel).scan_fault seen _))
      ]
