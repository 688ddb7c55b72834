-- ===== src/Events/Consumer.antt =====
-- consumer.go and checkpoints.go: the checkpoint of a consumer, one round of its loop, and its dead
-- letters.
pub mod Attempts
pub mod Checkpoint
pub mod Settled
pub mod Stuck
use krampus.Prelude.{
  ℕ, zero, suc, String, Option, none, some, List, [], ◌∷◌, ◌++◌, if◌then◌else◌, ltb, take,
}
use krampus.Prelude.Dict.{Dict, lookup, insert}
use krampus.Domain.Errors.{Error, Result, ok, err, plain, error_text}
use krampus.Storage.Fault.{Fault, exec, query}
use krampus.Events.{DomainEvent, Handler, dispatch, events_after, select_events}

-- a row of event_dlq
pub record DeadEvent : Type 0 where
  pub event_id : ℕ
  pub consumer_name : String
  pub error : String
  pub payload : String

-- The tables, and what the projections keep.
pub record EventWorld (W : Type 0) : Type 0 where
  pub events : List DomainEvent
  pub checkpoints : Dict ℕ
  pub dead : List DeadEvent
  pub view : W

-- `Consumer`
pub record EventConsumer (W : Type 0) : Type 0 where
  pub name : String
  pub batch_size : ℕ
  pub projections : List (Handler W)

-- How the statements of a round turn out; a row of the result and a dead letter have a number each.
pub record Round : Type 0 where
  pub get_fault : Fault
  pub begin_fault : Fault
  pub query_fault : Fault
  pub scan_fault : ℕ → Fault
  pub dead_fault : ℕ → Fault
  pub save_fault : Fault
  pub commit_fault : Fault

abbrev pub checkpoint_of : String → Dict ℕ → ℕ
checkpoint_of name rows = elim (lookup name rows) [ none ↦ 0 | some n ↦ n ]

-- `CheckpointRepository.Get`: no row is 0
unfoldable pub get_checkpoint : Fault → String → Dict ℕ → Result ℕ
unfolding lookup
get_checkpoint fault name rows = query fault (checkpoint_of name rows)

-- `CheckpointRepository.Save`, also the upsert inside `process`
unfoldable pub save_checkpoint : Fault → String → ℕ → Dict ℕ → Result (Unit {0}) × Dict ℕ
save_checkpoint fault name n rows = exec fault rows (insert name n rows)

unfoldable pub dead_letter : String → DomainEvent → Error → DeadEvent
unfolding error_text
dead_letter name e x = record {
  event_id = e.id;
  consumer_name = name;
  error = error_text x;
  payload = e.payload;
}

-- `moveToDLQ`: the answer of the INSERT is dropped
unfoldable pub move_to_dlq : Fault → String → DomainEvent → Error → List DeadEvent → List DeadEvent
unfolding dead_letter
move_to_dlq fault name e x rows = (exec fault rows (rows ++ dead_letter name e x ∷ [])).1

-- Where the loop over the rows stands.
pub record Progress (W : Type 0) : Type 0 where
  pub processed : ℕ
  pub dead : List DeadEvent
  pub view : W

module _ {W : Type 0} where
  -- the body of the loop
  unfoldable pub consume_event : EventConsumer W → Round → ℕ → DomainEvent → Progress W → Progress W
  unfolding dispatch move_to_dlq
  consume_event c r i e s = elim (dispatch c.projections e s.view).0 [
    | err x ↦ record s {
      dead = move_to_dlq (r.dead_fault i) c.name e x s.dead;
      view = (dispatch c.projections e s.view).1;
    }
    | ok u ↦ record s { processed = e.sequence; view = (dispatch c.projections e s.view).1 }
  ]

  -- the loop over the rows; a row that does not scan ends it with the error
  unfoldable pub consume_events :
      EventConsumer W → Round → ℕ → List DomainEvent → Progress W → Result (Unit {0}) × Progress W
  unfolding consume_event
  consume_events c r i [] s = (ok tt, s)
  consume_events c r i (e ∷ events) s = elim (r.scan_fault i) [
    | some text ↦ (err (plain text), s)
    | none ↦ consume_events c r (suc i) events (consume_event c r i e s)
  ]

  -- the upsert and `Commit`: the checkpoint is written in the transaction
  unfoldable pub commit_checkpoint :
      EventConsumer W → Round → ℕ → Dict ℕ → Result (Unit {0}) × Dict ℕ
  unfolding save_checkpoint
  commit_checkpoint c r processed rows =
      let saved =
        if ltb 0 processed
        then save_checkpoint r.save_fault c.name processed rows
        else (ok tt, rows) in
      elim saved.0 [ err x ↦ (err x, rows) | ok u ↦ exec r.commit_fault rows saved.1 ]

  -- what `process` does after the loop
  unfoldable pub finish_round :
      EventConsumer W
      → Round
      → EventWorld W
      → Result (Unit {0}) × Progress W
      → Result (Unit {0}) × EventWorld W
  unfolding commit_checkpoint
  finish_round c r w s = elim s.0 [
    | err x ↦ (err x, record w { dead = s.1.dead; view = s.1.view })
    | ok u ↦
        let saved = commit_checkpoint c r s.1.processed w.checkpoints in
        (saved.0, record w { checkpoints = saved.1; dead = s.1.dead; view = s.1.view })
  ]

  abbrev pub at_start : EventWorld W → Progress W
  at_start w = record { processed = 0; dead = w.dead; view = w.view }

  -- the rows that `process` selects
  abbrev pub batch_of : EventConsumer W → EventWorld W → List DomainEvent
  batch_of c w = take c.batch_size (events_after (checkpoint_of c.name w.checkpoints) w.events)

  -- `Consumer.process`
  unfoldable pub consume : EventConsumer W → Round → EventWorld W → Result (Unit {0}) × EventWorld W
  unfolding get_checkpoint select_events consume_events finish_round
  consume c r w = elim (get_checkpoint r.get_fault c.name w.checkpoints) [
    | err x ↦ (err x, w)
    | ok last ↦ elim r.begin_fault [
      | some text ↦ (err (plain text), w)
      | none ↦ elim (select_events r.query_fault last c.batch_size w.events) [
        | err x ↦ (err x, w)
        | ok events ↦ finish_round c r w (consume_events c r 0 events (at_start w))
      ]
    ]
  ]

  -- The loop of `Start`: a round on each tick; the error of a round is only logged.
  unfoldable pub start : EventConsumer W → (ℕ → Round) → ℕ → EventWorld W → EventWorld W
  unfolding consume
  start c rounds zero w = w
  start c rounds (suc n) w = start c rounds n (consume c (rounds n) w).1
