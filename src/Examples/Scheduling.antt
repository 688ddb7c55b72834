-- ===== src/Examples/Scheduling.antt =====
-- The theorems about the scheduler at concrete inputs.
use krampus.Prelude.{
  true, false, none, some, List, [], ◌∷◌, ◌≤◌, ◌+◌, refl, inl, inr, In, arith, eq_iff,
}
use krampus.Scheduling.{ScheduledMessage, Turn, process_scheduled_messages, start_scheduler}
use krampus.Scheduling.Once.{count, pending, start_once}
use krampus.Scheduling.Due.{process_scheduled_messages-is_due}

abbrev rows : List ScheduledMessage
rows =
    record { message_id = "b"; scheduled_at = 9; published = false }
    ∷ record { message_id = "a"; scheduled_at = 3; published = false }
    ∷ []

-- The publisher refuses the message a.
abbrev turn : Turn
turn = record {
  now = 5;
  locked = λ id. false;
  begin_fault = none;
  update_fault = none;
  scan_fault = none;
  commit_fault = none;
  publish = λ id. some "refused";
}

start_once_example :
    count "a"
        (start_scheduler (λ ids. ids) (turn ∷ turn ∷ []) (record { rows = rows; given = [] })).given
      + pending "a"
          (start_scheduler
            (λ ids. ids)
            (turn ∷ turn ∷ [])
            (record { rows = rows; given = [] })).rows
    ≤ 1
start_once_example =
    start_once (λ ids. ids) (λ id xs. refl) "a" (turn ∷ turn ∷ []) rows
      ((λ e. absurd (let z = (eq_iff "b" "a").1 e in cc), tt), (tt, tt))

process_scheduled_messages-is_due_example :
    In "a"
      (process_scheduled_messages (λ ids. ids) turn (record { rows = rows; given = [] })).1.given
    × In
        (record { message_id = "a"; scheduled_at = 3; published = true })
        (process_scheduled_messages (λ ids. ids) turn (record { rows = rows; given = [] })).1.rows
process_scheduled_messages-is_due_example =
    process_scheduled_messages-is_due (λ ids. ids) (λ id xs. refl) turn
      (record { rows = rows; given = [] })
      (record { message_id = "a"; scheduled_at = 3; published = false }) (refl, refl, refl, refl)
      (omega arith) (inr (inl refl)) refl
