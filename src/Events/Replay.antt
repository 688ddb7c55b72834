-- ===== src/Events/Replay.antt =====
-- replay.go and rebuild.go.
pub mod Refines
pub mod Halts
use krampus.Prelude.{ℕ, zero, suc, String, Option, none, some, List, [], ◌∷◌}
use krampus.Domain.Errors.{Error, Result, ok, err, plain}
use krampus.Storage.Fault.{Fault}
use krampus.Events.{DomainEvent, Handler, dispatch, select_events}

-- How the statements of one turn of the loop turn out.
pub record Fetch : Type 0 where
  pub query_fault : Fault
  pub scan_fault : ℕ → Fault

-- Where the loop over the rows of a batch stands.
pub record Replayed (W : Type 0) : Type 0 where
  pub from : ℕ
  pub count : ℕ
  pub view : W

module _ {W : Type 0} where
  -- the loop over the rows of one batch
  unfoldable pub replay_rows :
      List (Handler W)
      → (ℕ → Fault)
      → List DomainEvent
      → Replayed W
      → Result (Unit {0}) × Replayed W
  unfolding dispatch
  replay_rows handlers scan [] s = (ok tt, s)
  replay_rows handlers scan (e ∷ events) s = elim (scan s.count) [
    | some text ↦ (err (plain text), s)
    | none ↦ elim (dispatch handlers e s.view).0 [
      | err x ↦ (err x, record s { view = (dispatch handlers e s.view).1 })
      | ok u ↦
          replay_rows handlers scan events (record {
            from = e.sequence;
            count = suc s.count;
            view = (dispatch handlers e s.view).1;
          })
    ]
  ]

  -- the end of a turn: an error, `count == 0`, or the next turn
  unfoldable pub end_turn :
      (ℕ → W → Option (Result (Unit {0}) × W))
      → Result (Unit {0}) × Replayed W
      → Option (Result (Unit {0}) × W)
  end_turn next (err x, s) = some (err x, s.view)
  end_turn next (ok u, s) = elim s.count [
    | zero ↦ some (ok tt, s.view)
    | suc n ↦ next s.from s.view
  ]

  -- `Replay`: `none` when the fuel ends before the loop does
  unfoldable pub replay :
      List (Handler W)
      → (ℕ → Fetch)
      → List DomainEvent
      → ℕ
      → ℕ
      → ℕ
      → W
      → Option (Result (Unit {0}) × W)
  unfolding select_events replay_rows end_turn
  replay handlers fetches rows batch zero from w = none
  replay handlers fetches rows batch (suc fuel) from w =
      elim (select_events (fetches fuel).query_fault from batch rows) [
        | err x ↦ some (err x, w)
        | ok events ↦
            end_turn (λ from' w'. replay handlers fetches rows batch fuel from' w')
              (replay_rows handlers (fetches fuel).scan_fault events
                (record { from = from; count = 0; view = w }))
      ]

  -- `RebuildSearchProjection`: `truncate` empties the projection
  unfoldable pub rebuild_search_projection :
      List (Handler W)
      → Fault
      → (W → W)
      → (ℕ → Fetch)
      → List DomainEvent
      → ℕ
      → W
      → Option (Result (Unit {0}) × W)
  unfolding replay
  rebuild_search_projection handlers fault truncate fetches rows fuel w = elim fault [
    | some text ↦ some (err (plain text), w)
    | none ↦ replay handlers fetches rows 1000 fuel 0 (truncate w)
  ]
