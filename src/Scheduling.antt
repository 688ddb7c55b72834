-- ===== src/Scheduling.antt =====
-- internal/message/scheduler: a pass of the scheduler claims the messages that are due and hands them to
-- the publisher. The publisher is a parameter, as are the clock, the rows that another transaction
-- holds, and the order in which PostgreSQL returns updated rows.
pub mod Once
pub mod Due
use krampus.Prelude.{
  ℕ, String, Bool, true, false, not, ◌&&◌, Option, none, some, List, [], ◌∷◌, ◌++◌, if◌then◌else◌,
  leb, contains, filter, take, map,
}
use krampus.Prelude.Order.{order_by}
use krampus.Domain.Errors.{Error, Result, ok, err, plain}
use krampus.Storage.Fault.{Fault}

-- A row of scheduled_messages.
pub record ScheduledMessage : Type 0 where
  pub message_id : String
  pub scheduled_at : ℕ
  pub published : Bool

abbrev pub ids : List ScheduledMessage → List String
ids rows = map (λ r. r.message_id) rows

-- What a pass meets: its clock, the rows that are locked, how its statements turn out and what the
-- publisher answers for a message.
pub record Turn : Type 0 where
  pub now : ℕ
  pub locked : String → Bool
  pub begin_fault : Fault
  pub update_fault : Fault
  pub scan_fault : Fault
  pub commit_fault : Fault
  pub publish : String → Fault

-- The table, and the messages that the publisher has been given so far.
pub record Schedule : Type 0 where
  pub rows : List ScheduledMessage
  pub given : List String

-- the inner SELECT of `LockPendingMessages`
unfoldable pub pending_messages :
    ℕ → (String → Bool) → ℕ → List ScheduledMessage → List ScheduledMessage
unfolding order_by
pending_messages now locked limit rows = take limit (
    order_by (λ r. r.scheduled_at)
      (filter (λ r. not r.published && (leb r.scheduled_at now && not (locked r.message_id))) rows))

-- UPDATE scheduled_messages SET published = TRUE WHERE message_id IN …
unfoldable pub mark_claimed : List String → List ScheduledMessage → List ScheduledMessage
mark_claimed claimed rows =
    map (λ r. if contains r.message_id claimed then record r { published = true } else r) rows

-- the loop of `processScheduledMessages`: the messages that it hands to the publisher, whose errors
-- it passes over
unfoldable pub publish_messages : (String → Fault) → List String → List String
publish_messages publish [] = []
publish_messages publish (id ∷ messages) = elim (publish id) [
  | some text ↦ id ∷ publish_messages publish messages
  | none ↦ id ∷ publish_messages publish messages
]

module _ (arrange : List String → List String) where
  -- `LockPendingMessages`: the messages that it returns, and the table
  unfoldable pub lock_pending_messages :
      Turn → ℕ → List ScheduledMessage → Result (List String) × List ScheduledMessage
  unfolding pending_messages mark_claimed
  lock_pending_messages turn limit rows = elim turn.begin_fault [
    | some text ↦ (err (plain text), rows)
    | none ↦ elim turn.update_fault [
      | some text ↦ (err (plain text), rows)
      | none ↦ elim turn.scan_fault [
        | some text ↦ (err (plain text), rows)
        | none ↦ elim turn.commit_fault [
          | some text ↦ (err (plain text), rows)
          | none ↦ (
            ok (arrange (ids (pending_messages turn.now turn.locked limit rows))),
            mark_claimed (ids (pending_messages turn.now turn.locked limit rows)) rows,
          )
        ]
      ]
    ]
  ]

  -- `processScheduledMessages`
  unfoldable pub process_scheduled_messages : Turn → Schedule → Result (Unit {0}) × Schedule
  unfolding lock_pending_messages publish_messages
  process_scheduled_messages turn s = elim (lock_pending_messages turn 100 s.rows).0 [
    | err x ↦ (err x, record s { rows = (lock_pending_messages turn 100 s.rows).1 })
    | ok messages ↦ (
      ok tt,
      record {
        rows = (lock_pending_messages turn 100 s.rows).1;
        given = s.given ++ publish_messages turn.publish messages;
      },
    )
  ]

  -- The turns of `Start`, one after the other; an error of a turn is logged.
  unfoldable pub start_scheduler : List Turn → Schedule → Schedule
  unfolding process_scheduled_messages
  start_scheduler [] s = s
  start_scheduler (turn ∷ turns) s = start_scheduler turns (process_scheduled_messages turn s).1
