-- ===== src/Scheduling/Due.antt =====
-- Which messages a pass of the scheduler hands to the publisher.
use krampus.Prelude.{
  ℕ, zero, suc, ◌≤◌, ◌<◌, String, Bool, true, not, ◌&&◌, none, List, [], ◌∷◌, ◌≡◌, refl, sym, ap,
  subst, contains, In→contains, if◌then◌else◌, inl, inr, In, In-append, In-filter, arith, leb,
  eq_iff, filter, length, take,
}
use krampus.Prelude.Order.{order_by, In-order_by, length-order_by}
use krampus.Scheduling.{
  ScheduledMessage, Schedule, Turn, ids, pending_messages, mark_claimed, lock_pending_messages,
  process_scheduled_messages,
}
use krampus.Scheduling.Once.{count, count-In, given_publish}

-- The row can be claimed at the time of the turn.
abbrev pub is_due : Turn → ScheduledMessage → Bool
is_due turn r = not r.published && (leb r.scheduled_at turn.now && not (turn.locked r.message_id))

-- No statement of the turn fails; the publisher may.
abbrev pub IsCalm : Turn → Type 0
IsCalm turn =
    (turn.begin_fault ≡ none)
    × (turn.update_fault ≡ none)
    × (turn.scan_fault ≡ none)
    × (turn.commit_fault ≡ none)

In-ids :
    (r : ScheduledMessage) (rows : List ScheduledMessage) → In r rows → In r.message_id (ids rows)
In-ids r [] h = absurd h
In-ids r (s ∷ rows) (inl e) = inl (ap (λ x. x.message_id) e)
In-ids r (s ∷ rows) (inr h) = inr (In-ids r rows h)

In-count : (id : String) (xs : List String) → In id xs → 0 < count id xs
In-count id [] h = absurd h
In-count id (x ∷ xs) (inl e) = rw ((eq_iff x id).1 e, count) (omega arith)
In-count id (x ∷ xs) (inr h) = ground (arith, In-count id xs h)

take-all : {A : Type 0} (n : ℕ) (xs : List A) → length xs ≤ n → take n xs ≡ xs
take-all zero [] h = refl
take-all (suc n) [] h = refl
take-all zero (x ∷ xs) h = absurd (omega (arith, h))
take-all (suc n) (x ∷ xs) h = ap (λ ys. x ∷ ys) (take-all n xs (omega (arith, h)))

In-pending_messages :
    (turn : Turn) (r : ScheduledMessage) (rows : List ScheduledMessage)
    → length (filter (is_due turn) rows) ≤ 100
    → In r rows
    → is_due turn r ≡ true
    → In r (pending_messages turn.now turn.locked 100 rows)
unfolding pending_messages
In-pending_messages turn r rows l m h =
    let due : List ScheduledMessage = filter (is_due turn) rows in
    subst (λ rs. In r rs)
      (sym (
        take-all 100 (order_by (λ x. x.scheduled_at) due)
          (omega (arith, l, length-order_by (λ x. x.scheduled_at) due))))
      (In-order_by (λ x. x.scheduled_at) r due (In-filter (is_due turn) r rows h m))

In-mark_claimed :
    (claimed : List String) (r : ScheduledMessage) (rows : List ScheduledMessage)
    → contains r.message_id claimed ≡ true
    → In r rows
    → In (record r { published = true }) (mark_claimed claimed rows)
unfolding mark_claimed
In-mark_claimed claimed r [] c h = absurd h
In-mark_claimed claimed r (s ∷ rows) c (inl e) = inl (
    subst
      (λ t.
        (if contains t.message_id claimed then record t { published = true } else t)
        ≡ record r { published = true })
      (sym e) (rw (c) refl))
In-mark_claimed claimed r (s ∷ rows) c (inr h) = inr (In-mark_claimed claimed r rows c h)

module _ (arrange : List String → List String)
    (same : (id : String) (xs : List String) → count id (arrange xs) ≡ count id xs) where
  -- When PostgreSQL returns each updated row once and no statement of the turn fails, a row that the turn
  -- can claim, of at most a hundred of them, is handed to the publisher and marked as published,
  -- whatever the publisher answers, for this message and for the others.
  pub process_scheduled_messages-is_due :
      (turn : Turn) (s : Schedule) (r : ScheduledMessage)
      → IsCalm turn
      → length (filter (is_due turn) s.rows) ≤ 100
      → In r s.rows
      → is_due turn r ≡ true
      → In r.message_id (process_scheduled_messages arrange turn s).1.given
        × In (record r { published = true }) (process_scheduled_messages arrange turn s).1.rows
  unfolding process_scheduled_messages lock_pending_messages pending_messages mark_claimed
  process_scheduled_messages-is_due turn s r (b, u, c, d) l m h =
      simp (b, u, c, d, process_scheduled_messages, lock_pending_messages)
        (let claimed : List String = ids (pending_messages turn.now turn.locked 100 s.rows) in
          let mine : In r.message_id claimed =
            In-ids r _ (In-pending_messages turn r s.rows l m h) in
          (
            rw (given_publish turn.publish (arrange claimed)) (
                In-append r.message_id s.given (arrange claimed) (
                  inr (
                    count-In r.message_id (arrange claimed) (
                      omega
                        (arith, same r.message_id claimed, In-count r.message_id claimed mine))))),
            In-mark_claimed claimed r s.rows (In→contains r.message_id claimed mine) m,
          ))
