-- ===== src/Search/Queue/Handled.antt =====
-- Which items a pass of the index worker gives to the indexer, and which it marks as processed.
use mathlib.Core.List.{append-nil}
use krampus.Prelude.{
  ℕ, String, Bool, true, false, none, some, List, [], ◌∷◌, ◌≡◌, ◌⊎◌, inl, inr, refl, In, Bool-cases,
  Option-cases, arith, ◌==◌, ap, subst, if◌then◌else◌, sym, ◌∙◌, ◌++◌,
}
use krampus.Domain.Errors.{Error, Result, ok, err, Result-cases}
use krampus.Storage.Fault.{Fault}
use krampus.Search.{SearchRow}
use krampus.Search.Queue.{
  QueueItem, Tables, Pass, select_items, mark_processed, handle_item, handle_items, end_pass,
  process_index_queue,
}

eq_num : (a b : ℕ) → (a == b) ≡ true → a ≡ b
eq_num a b c = ground (arith, c)

if_true : {A : Type 0} {b : Bool} (x y z : A) → b ≡ true → (if b then x else y) ≡ z → x ≡ z
if_true x y z c m = subst (λ b. (if b then x else y) ≡ z) c m

if_false : {A : Type 0} {b : Bool} (x y z : A) → b ≡ false → (if b then x else y) ≡ z → y ≡ z
if_false x y z c m = subst (λ b. (if b then x else y) ≡ z) c m

-- A row of the marked queue was there before, or has the id.
In-mark_processed :
    (id : ℕ) (i : QueueItem) (queue : List QueueItem)
    → In i (mark_processed id queue)
    → In i queue ⊎ (i.id ≡ id)
unfolding mark_processed
In-mark_processed id i [] m = inl m
In-mark_processed id i (j ∷ queue) (inr m) = elim (In-mark_processed id i queue m) [
  | inl k ↦ inl (inr k)
  | inr e ↦ inr e
]
In-mark_processed id i (j ∷ queue) (inl m) = elim (Bool-cases (j.id == id)) [
  | inl c ↦
      inr
        (sym (ap (λ r. r.id) (if_true (record j { processed = true }) j i c m)) ∙ eq_num j.id id c)
  | inr c ↦ inl (inl (if_false (record j { processed = true }) j i c m))
]

end_pass-Ends :
    (fault : Fault) (queue : List QueueItem) (r : Result (Unit {0}) × Tables)
    → ((i : QueueItem) → In i (end_pass fault queue r).1.queue → In i queue ⊎ In i r.1.queue)
      × ((x : Error)
          → (end_pass fault queue r).0 ≡ err x
          → (end_pass fault queue r).1.queue ≡ queue)
      × ((end_pass fault queue r).1.projection ≡ r.1.projection)
      × ((end_pass fault queue r).0 ≡ ok tt → r.0 ≡ ok tt)
unfolding end_pass
end_pass-Ends fault queue (err x, t) = (λ i m. inl m, λ y e. refl, refl, λ h. h)
end_pass-Ends (some text) queue (ok u, t) = (λ i m. inl m, λ y e. refl, refl, λ h. refl)
end_pass-Ends none queue (ok u, t) =
    (λ i m. inr m, λ y e. absurd (let z = e in cc), refl, λ h. refl)

module _ (exists : String → Bool) (pass : Pass) where
  -- The projection after the indexer was given the items, one after the other.
  abbrev pub projected : List QueueItem → List SearchRow → List SearchRow
  projected [] rows = rows
  projected (i ∷ items) rows = projected items (handle_item exists (pass.index_fault i.id) i rows).1

  -- An item of the list has this id, and the indexer, given the items one after the other, answered
  -- without an error when its turn came.
  abbrev pub IsHandled : ℕ → List QueueItem → List SearchRow → Type 0
  IsHandled id [] rows = ⊥
  IsHandled id (i ∷ items) rows =
      ((i.id ≡ id) × ((handle_item exists (pass.index_fault i.id) i rows).0 ≡ ok tt))
      ⊎ IsHandled id items (handle_item exists (pass.index_fault i.id) i rows).1

  -- What a loop over the items came to: how far it got, what it did to the projection, which rows of the
  -- queue are new.
  abbrev pub Came : List QueueItem → Tables → Result (Unit {0}) × Tables → Type 0
  Came items t r =
      (given rest : List QueueItem) × (items ≡ given ++ rest)
      × (r.0 ≡ ok tt → rest ≡ [])
      × (r.1.projection ≡ projected given t.projection)
      × ((i : QueueItem) → In i r.1.queue → In i t.queue ⊎ IsHandled i.id given t.projection)

  handle_items-Came :
      (items : List QueueItem) (t : Tables) → Came items t (handle_items exists pass items t)
  unfolding handle_items
  handle_items-Came [] t = ([], [], refl, λ h. refl, refl, λ i m. inl m)
  handle_items-Came (j ∷ items) t =
      elim (Result-cases (handle_item exists (pass.index_fault j.id) j t.projection).0) [
        | inl (x, c) ↦
            let later = handle_items-Came items _ in
            simp (c, handle_items)
              (
                j ∷ later.0,
                later.1,
                ap (λ is. j ∷ is) later.2,
                later.3,
                later.4,
                λ i m. elim (later.5 i m) [ inl k ↦ inl k | inr k ↦ inr (inr k) ],
              )
        | inr (u, c) ↦ elim (Option-cases (pass.mark_fault j.id)) [
          | inr (text, f) ↦
              simp (c, f, handle_items)
                (j ∷ [], items, refl, λ h. absurd (let z = h in cc), refl, λ i m. inl m)
          | inl f ↦
              let later = handle_items-Came items _ in
              simp (c, f, handle_items)
                (
                  j ∷ later.0,
                  later.1,
                  ap (λ is. j ∷ is) later.2,
                  later.3,
                  later.4,
                  λ i m. elim (later.5 i m) [
                    | inr k ↦ inr (inr k)
                    | inl k ↦ elim (In-mark_processed j.id i t.queue k) [
                      | inl l ↦ inl l
                      | inr e ↦ inr (inl (sym e, c))
                    ]
                  ],
                )
        ]
      ]

  -- Whatever fails in a pass of the index worker, there are items that it gave to the indexer, none or the
  -- first ones that it selected, in order, and the projection after it is the one before as the indexer
  -- changed it for these items. Each row of the queue after the pass stood in the queue before, or one of
  -- these items has its id and the indexer answered without an error when its turn came. When the pass
  -- succeeds, it gave all items that it selected, and when it answers with an error the queue is as it was.
  pub process_index_queue-IsHandled :
      (locked : ℕ → Bool) (t : Tables)
      → (given rest : List QueueItem) × ((given ≡ [])
          ⊎ (select_items pass.select_fault locked t.queue ≡ ok (given ++ rest)))
        × ((process_index_queue exists pass locked t).1.projection ≡ projected given t.projection)
        × ((i : QueueItem)
            → In i (process_index_queue exists pass locked t).1.queue
            → In i t.queue ⊎ IsHandled i.id given t.projection)
        × ((process_index_queue exists pass locked t).0 ≡ ok tt
            → select_items pass.select_fault locked t.queue ≡ ok given)
        × ((x : Error)
            → (process_index_queue exists pass locked t).0 ≡ err x
            → (process_index_queue exists pass locked t).1.queue ≡ t.queue)
  unfolding process_index_queue
  process_index_queue-IsHandled locked t = elim (Option-cases pass.begin_fault) [
    | inr (text, f) ↦
        simp (f, process_index_queue)
          ([], [], inl refl, refl, λ i m. inl m, λ h. absurd (let z = h in cc), λ x e. refl)
    | inl f ↦ elim (Result-cases (select_items pass.select_fault locked t.queue)) [
      | inl (x, c) ↦
          simp (f, c, process_index_queue)
            ([], [], inl refl, refl, λ i m. inl m, λ h. absurd (let z = h in cc), λ y e. refl)
      | inr (items, c) ↦
          let came = handle_items-Came items t in
          let ends = end_pass-Ends pass.commit_fault t.queue (handle_items exists pass items t) in
          simp (f, c, process_index_queue)
            (
              came.0,
              came.1,
              inr (ap ok came.2),
              ends.2 ∙ came.4,
              λ i m. elim (ends.0 i m) [ inl k ↦ inl k | inr k ↦ came.5 i k ],
              λ h. ap ok (came.2 ∙ ap (λ is. came.0 ++ is) (came.3 (ends.3 h)) ∙ append-nil came.0),
              ends.1,
            )
    ]
  ]
