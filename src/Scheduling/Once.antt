-- ===== src/Scheduling/Once.antt =====
-- How often the scheduler hands a message to the publisher.
use krampus.Prelude.{
  ℕ, zero, suc, ◌+◌, ◌≤◌, String, Bool, true, false, not, ◌&&◌, List, [], ◌∷◌, ◌++◌, ◌≡◌, refl, sym,
  ap, subst, ◌⊎◌, inl, inr, Bool-cases, Option-cases, arith, if◌then◌else◌, leb, str_eq, eq_iff,
  contains, In, All, ◌≢◌, In→contains, ℕ-cases, ◌<◌, filter, take,
}
use krampus.Prelude.Order.{insert_by, order_by}
use krampus.Domain.Errors.{Error, ok, err}
use krampus.Storage.Fault.{Fault}
use krampus.Scheduling.{
  ScheduledMessage, Schedule, Turn, ids, pending_messages, mark_claimed, lock_pending_messages,
  publish_messages, process_scheduled_messages, start_scheduler,
}

-- How often a message is in a list.
abbrev pub count : String → List String → ℕ
count id [] = 0
count id (x ∷ xs) = let rest = count id xs in if str_eq x id then suc rest else rest

-- How many rows of a message are not published.
abbrev pub pending : String → List ScheduledMessage → ℕ
pending id [] = 0
pending id (r ∷ rows) =
    let rest = pending id rows in
    if str_eq r.message_id id && not r.published then suc rest else rest

-- The key of the table is the message.
abbrev pub HasDistinctIds : List ScheduledMessage → Type 0
HasDistinctIds [] = Unit
HasDistinctIds (r ∷ rows) = All (λ s. r.message_id ≢ s.message_id) rows × HasDistinctIds rows

pending-none :
    (id : String) (rows : List ScheduledMessage)
    → All (λ s. id ≢ s.message_id) rows
    → pending id rows ≡ 0
pending-none id [] h = refl
pending-none id (r ∷ rows) (n, h) = elim (Bool-cases (str_eq r.message_id id)) [
  | inl c ↦ absurd (n (sym ((eq_iff r.message_id id).0 c)))
  | inr c ↦ ground (arith, c, pending-none id rows h)
]

pending-le :
    (id : String) (rows : List ScheduledMessage) → HasDistinctIds rows → pending id rows ≤ 1
pending-le id [] h = omega arith
pending-le id (r ∷ rows) (n, h) = elim (Bool-cases (str_eq r.message_id id)) [
  | inl c ↦
      let rest : pending id rows ≡ 0 =
        pending-none id rows
          (subst (λ t. All (λ s. t ≢ s.message_id) rows) ((eq_iff r.message_id id).0 c) n) in
      ground (arith, rest)
  | inr c ↦ ground (arith, c, pending-le id rows h)
]

count-append : (id : String) (xs ys : List String) → count id (xs ++ ys) ≡ count id xs + count id ys
count-append id [] ys = omega arith
count-append id (x ∷ xs) ys = ground (arith, count-append id xs ys)

count-take :
    (id : String) (n : ℕ) (rows : List ScheduledMessage)
    → count id (ids (take n rows)) ≤ count id (ids rows)
count-take id zero rows = omega arith
count-take id (suc n) [] = omega arith
count-take id (suc n) (r ∷ rows) = ground (arith, count-take id n rows)

count-insert_by :
    (id : String) (r : ScheduledMessage) (rows : List ScheduledMessage)
    → count id (ids (insert_by (λ s. s.scheduled_at) r rows)) ≡ count id (ids (r ∷ rows))
unfolding insert_by
count-insert_by id r [] = refl
count-insert_by id r (s ∷ rows) = ground (arith, count-insert_by id r rows)

count-order_by :
    (id : String) (rows : List ScheduledMessage)
    → count id (ids (order_by (λ s. s.scheduled_at) rows)) ≡ count id (ids rows)
unfolding order_by
count-order_by id [] = refl
count-order_by id (r ∷ rows) =
    ground
      (arith, count-insert_by id r (order_by (λ s. s.scheduled_at) rows), count-order_by id rows)

count-filter :
    (id : String) (now : ℕ) (locked : String → Bool) (rows : List ScheduledMessage)
    → count id (
        ids (
          filter
            (λ r. not r.published && (leb r.scheduled_at now && not (locked r.message_id)))
            rows))
      ≤ pending id rows
count-filter id now locked [] = omega arith
count-filter id now locked (r ∷ rows) = ground (arith, count-filter id now locked rows)

pending-mark_claimed :
    (id : String) (claimed : List String) (rows : List ScheduledMessage)
    → contains id claimed ≡ true
    → pending id (mark_claimed claimed rows) ≡ 0
unfolding mark_claimed
pending-mark_claimed id claimed [] h = refl
pending-mark_claimed id claimed (r ∷ rows) h =
    let rest = pending-mark_claimed id claimed rows h in
    elim (Bool-cases (str_eq r.message_id id)) [
      | inl c ↦
          let claims : contains r.message_id claimed ≡ true =
            subst (λ t. contains t claimed ≡ true) (sym ((eq_iff r.message_id id).0 c)) h in
          ground (arith, c, claims, rest)
      | inr c ↦ ground (arith, c, rest)
    ]

pending-mark_others :
    (id : String) (claimed : List String) (rows : List ScheduledMessage)
    → pending id (mark_claimed claimed rows) ≤ pending id rows
unfolding mark_claimed
pending-mark_others id claimed [] = omega arith
pending-mark_others id claimed (r ∷ rows) = ground (arith, pending-mark_others id claimed rows)

pub count-In : (id : String) (claimed : List String) → 0 < count id claimed → In id claimed
count-In id [] = λ h. absurd (omega (arith, h))
count-In id (x ∷ claimed) = elim (Bool-cases (str_eq x id)) [
  | inl c ↦ λ h. inl ((eq_iff x id).0 c)
  | inr c ↦ rw (c, count) (λ h. inr (count-In id claimed h))
]

count-none :
    (id : String) (claimed : List String) → contains id claimed ≡ false → count id claimed ≡ 0
count-none id claimed h = elim (ℕ-cases (count id claimed)) [
  | inl c ↦ c
  | inr (n, c) ↦
      absurd (let z = In→contains id claimed (count-In id claimed (omega (arith, c))) in cc)
]

count-pending_messages :
    (id : String) (now limit : ℕ) (locked : String → Bool) (rows : List ScheduledMessage)
    → count id (ids (pending_messages now locked limit rows)) ≤ pending id rows
unfolding pending_messages
count-pending_messages id now limit locked rows = omega (
  arith,
  count-filter id now locked rows,
  count-take id limit (order_by (λ r. r.scheduled_at) _),
  count-order_by id
      (filter (λ r. not r.published && (leb r.scheduled_at now && not (locked r.message_id))) rows),
)

-- What is claimed is not pending any more.
claim_balance :
    (id : String) (claimed : List String) (rows : List ScheduledMessage)
    → count id claimed ≤ pending id rows
    → count id claimed + pending id (mark_claimed claimed rows) ≤ pending id rows
claim_balance id claimed rows h = elim (Bool-cases (contains id claimed)) [
  | inl c ↦ omega (arith, h, pending-mark_claimed id claimed rows c)
  | inr c ↦ omega (arith, count-none id claimed c, pending-mark_others id claimed rows)
]

pub given_publish :
    (publish : String → Fault) (messages : List String)
    → publish_messages publish messages ≡ messages
unfolding publish_messages
given_publish publish [] = refl
given_publish publish (id ∷ messages) = elim (Option-cases (publish id)) [
  | inl c ↦ simp (c, publish_messages) (ap (λ ms. id ∷ ms) (given_publish publish messages))
  | inr (text, c) ↦ simp (c, publish_messages) (ap (λ ms. id ∷ ms) (given_publish publish messages))
]

module _ (arrange : List String → List String) where
  -- The two ways in which `LockPendingMessages` ends.
  pub lock_pending_messages-cases :
      (turn : Turn) (limit : ℕ) (rows : List ScheduledMessage)
      → ((x : Error) × (lock_pending_messages arrange turn limit rows ≡ (err x, rows)))
        ⊎ (lock_pending_messages arrange turn limit rows ≡ (
          ok (arrange (ids (pending_messages turn.now turn.locked limit rows))),
          mark_claimed (ids (pending_messages turn.now turn.locked limit rows)) rows,
        ))
  unfolding lock_pending_messages
  lock_pending_messages-cases turn limit rows = elim (Option-cases turn.begin_fault) [
    | inr (text, b) ↦ simp (b, lock_pending_messages) (inl (_, refl))
    | inl b ↦ elim (Option-cases turn.update_fault) [
      | inr (text, u) ↦ simp (b, u, lock_pending_messages) (inl (_, refl))
      | inl u ↦ elim (Option-cases turn.scan_fault) [
        | inr (text, c) ↦ simp (b, u, c, lock_pending_messages) (inl (_, refl))
        | inl c ↦ elim (Option-cases turn.commit_fault) [
          | inr (text, d) ↦ simp (b, u, c, d, lock_pending_messages) (inl (_, refl))
          | inl d ↦ simp (b, u, c, d, lock_pending_messages) (inr refl)
        ]
      ]
    ]
  ]

module _ (arrange : List String → List String)
    (same : (id : String) (xs : List String) → count id (arrange xs) ≡ count id xs) where
  turn_balance :
      (id : String) (turn : Turn) (s : Schedule)
      → count id (process_scheduled_messages arrange turn s).1.given
          + pending id (process_scheduled_messages arrange turn s).1.rows
        ≤ count id s.given + pending id s.rows
  unfolding process_scheduled_messages
  turn_balance id turn s = elim (lock_pending_messages-cases arrange turn 100 s.rows) [
    | inl (x, e) ↦ simp (e, process_scheduled_messages) (omega arith)
    | inr e ↦
        let claimed : List String = ids (pending_messages turn.now turn.locked 100 s.rows) in
        simp (e, given_publish turn.publish (arrange claimed), process_scheduled_messages)
          (omega (
            arith,
            count-append id s.given (arrange claimed),
            same id claimed,
            claim_balance id claimed s.rows
                (count-pending_messages id turn.now 100 turn.locked s.rows),
          ))
  ]

  start-count :
      (id : String) (turns : List Turn) (s : Schedule)
      → count id (start_scheduler arrange turns s).given
          + pending id (start_scheduler arrange turns s).rows
        ≤ count id s.given + pending id s.rows
  unfolding start_scheduler
  start-count id [] s = omega arith
  start-count id (turn ∷ turns) s = omega (
    arith,
    turn_balance id turn s,
    start-count id turns (process_scheduled_messages arrange turn s).1,
  )

  -- When the message ids of the table are distinct, PostgreSQL returns each updated row once and no
  -- message has been handed to the publisher before, then after any turns of the scheduler, whatever
  -- fails in them and whatever the publisher answers, a message has been handed over at most once, and
  -- one that has been is not left unpublished in the table.
  pub start_once :
      (id : String) (turns : List Turn) (rows : List ScheduledMessage)
      → HasDistinctIds rows
      → count id (start_scheduler arrange turns (record { rows = rows; given = [] })).given
          + pending id (start_scheduler arrange turns (record { rows = rows; given = [] })).rows
        ≤ 1
  start_once id turns rows d =
      omega (arith, start-count id turns (record { rows = rows; given = [] }), pending-le id rows d)
