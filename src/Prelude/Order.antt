-- ===== src/Prelude/Order.antt =====
-- ORDER BY a numeric column, ascending: insertion sort, and what a reader that pages through the
-- sorted rows by the last key it saw relies on.
use krampus.Prelude.Tests.{if◌then◌else◌, leb, ltb, Bool-cases}
use krampus.Prelude.Lists.{length, filter, In, All, All-map, All-filter}
use Prim.Native.Nat.{ℕ, suc, ◌≤◌, ◌<◌}
use mathlib.Core.Path.{◌≡◌, refl}
use mathlib.Core.Logic.{◌≢◌, ◌⊎◌, inl, inr}
use mathlib.Core.Bool.{Bool}
use mathlib.Core.List.{List, [], ◌∷◌, ◌++◌}
use native.Mathlib.Omega.{arith}

module _ {A : Type 0} (key : A → ℕ) where
  unfoldable pub insert_by : A → List A → List A
  insert_by e [] = e ∷ []
  insert_by e (f ∷ rows) =
      let rest = insert_by e rows in if leb (key e) (key f) then e ∷ f ∷ rows else f ∷ rest

  unfoldable pub order_by : List A → List A
  unfolding insert_by
  order_by [] = []
  order_by (e ∷ rows) = insert_by e (order_by rows)

  abbrev pub IsAscending : List A → Type 0
  IsAscending [] = Unit
  IsAscending (e ∷ rows) = All (λ f. key e < key f) rows × IsAscending rows

  abbrev pub HasDistinctKeys : List A → Type 0
  HasDistinctKeys [] = Unit
  HasDistinctKeys (e ∷ rows) = All (λ f. key e ≢ key f) rows × HasDistinctKeys rows

  -- WHERE key > n
  abbrev pub is_above_key : ℕ → A → Bool
  is_above_key n e = ltb n (key e)

  -- The last key a reader has seen.
  abbrev pub last_key : ℕ → List A → ℕ
  last_key n [] = n
  last_key n (e ∷ rows) = last_key (key e) rows

  All-insert_by :
      (P : A → Type 0) (e : A) (rows : List A) → P e → All P rows → All P (insert_by e rows)
  unfolding insert_by
  All-insert_by P e [] p h = (p, tt)
  All-insert_by P e (f ∷ rows) p h = elim (Bool-cases (leb (key e) (key f))) [
    | inl c ↦ rw (c, insert_by) (p, h)
    | inr c ↦ rw (c, insert_by) (h.0, All-insert_by P e rows p h.1)
  ]

  pub All-order_by : (P : A → Type 0) (rows : List A) → All P rows → All P (order_by rows)
  unfolding order_by
  All-order_by P [] h = tt
  All-order_by P (e ∷ rows) h = All-insert_by P e (order_by rows) h.0 (All-order_by P rows h.1)

  In-insert_by : (a e : A) (rows : List A) → (e ≡ a) ⊎ In a rows → In a (insert_by e rows)
  unfolding insert_by
  In-insert_by a e [] (inl h) = inl h
  In-insert_by a e [] (inr h) = absurd h
  In-insert_by a e (f ∷ rows) h = elim (Bool-cases (leb (key e) (key f))) [
    | inl c ↦ rw (c, insert_by) h
    | inr c ↦
        rw (c, insert_by)
          (elim h [
            | inl q ↦ inr (In-insert_by a e rows (inl q))
            | inr (inl q) ↦ inl q
            | inr (inr q) ↦ inr (In-insert_by a e rows (inr q))
          ])
  ]

  pub In-order_by : (a : A) (rows : List A) → In a rows → In a (order_by rows)
  unfolding order_by
  In-order_by a [] h = h
  In-order_by a (e ∷ rows) (inl h) = In-insert_by a e (order_by rows) (inl h)
  In-order_by a (e ∷ rows) (inr h) = In-insert_by a e (order_by rows) (inr (In-order_by a rows h))

  insert_by-IsAscending :
      (e : A) (rows : List A)
      → All (λ f. key e ≢ key f) rows
      → IsAscending rows
      → IsAscending (insert_by e rows)
  unfolding insert_by
  insert_by-IsAscending e [] d h = (tt, tt)
  insert_by-IsAscending e (f ∷ rows) d h = elim (Bool-cases (leb (key e) (key f))) [
    | inl c ↦
        let x : key e < key f = ground (arith, c, d.0) in
        rw (c, insert_by)
          (
            (
              x,
              All-map (λ g. key f < key g) (λ g. key e < key g) rows (λ g l. omega (arith, x, l))
                  h.0,
            ),
            h,
          )
    | inr c ↦
        rw (c, insert_by)
          (
            All-insert_by (λ g. key f < key g) e rows (ground (arith, c)) h.0,
            insert_by-IsAscending e rows d.1 h.1,
          )
  ]

  pub order_by-IsAscending : (rows : List A) → HasDistinctKeys rows → IsAscending (order_by rows)
  unfolding order_by
  order_by-IsAscending [] d = tt
  order_by-IsAscending (e ∷ rows) d =
      insert_by-IsAscending e (order_by rows) (All-order_by (λ f. key e ≢ key f) rows d.0)
        (order_by-IsAscending rows d.1)

  insert_by-front :
      (e : A) (rows : List A) → All (λ f. key e ≤ key f) rows → insert_by e rows ≡ e ∷ rows
  unfolding insert_by
  insert_by-front e [] h = refl
  insert_by-front e (f ∷ rows) h = ground (arith, h.0)

  -- Filtering commutes with sorting.
  filter-insert_by :
      (p : A → Bool) (e : A) (rows : List A)
      → IsAscending rows
      → filter p (insert_by e rows) ≡ (if p e then insert_by e (filter p rows) else filter p rows)
  unfolding insert_by
  filter-insert_by p e [] h = refl
  filter-insert_by p e (f ∷ rows) h = elim (Bool-cases (leb (key e) (key f))) [
    | inl c ↦
        let later : All (λ g. key e ≤ key g) (f ∷ rows) = (
          ground (arith, c),
          All-map (λ g. key f < key g) (λ g. key e ≤ key g) rows (λ g l. ground (arith, c, l)) h.0,
        ) in
        ground (
          arith,
          c,
          insert_by-front e (filter p (f ∷ rows))
              (All-filter (λ g. key e ≤ key g) p (f ∷ rows) later),
        )
    | inr c ↦ ground (arith, c, filter-insert_by p e rows h.1)
  ]

  pub filter-order_by :
      (p : A → Bool) (rows : List A)
      → HasDistinctKeys rows
      → filter p (order_by rows) ≡ order_by (filter p rows)
  unfolding order_by
  filter-order_by p [] d = refl
  filter-order_by p (e ∷ rows) d = ground (
    arith,
    filter-insert_by p e (order_by rows) (order_by-IsAscending rows d.1),
    filter-order_by p rows d.1,
  )

  length-insert_by : (e : A) (rows : List A) → length (insert_by e rows) ≡ suc (length rows)
  unfolding insert_by
  length-insert_by e [] = refl
  length-insert_by e (f ∷ rows) = ground (arith, length-insert_by e rows)

  pub length-order_by : (rows : List A) → length (order_by rows) ≡ length rows
  unfolding order_by
  length-order_by [] = refl
  length-order_by (e ∷ rows) =
      omega (arith, length-insert_by e (order_by rows), length-order_by rows)

  pub last_key-le :
      (n : ℕ) (seen rest : List A)
      → All (λ f. n < key f) (seen ++ rest)
      → IsAscending (seen ++ rest)
      → n ≤ last_key n seen
  last_key-le n [] rest l h = omega arith
  last_key-le n (e ∷ seen) rest l h = omega (arith, l.0, last_key-le (key e) seen rest h.0 h.1)

  filter-All :
      (n : ℕ) (rows : List A) → All (λ f. n < key f) rows → filter (is_above_key n) rows ≡ rows
  filter-All n [] h = refl
  filter-All n (e ∷ rows) h = ground (arith, h.0, filter-All n rows h.1)

  -- Above the last key of a beginning stands what follows the beginning.
  pub filter-last_key :
      (n : ℕ) (seen rest : List A)
      → All (λ f. n < key f) (seen ++ rest)
      → IsAscending (seen ++ rest)
      → filter (is_above_key (last_key n seen)) (seen ++ rest) ≡ rest
  filter-last_key n [] rest l h = filter-All n rest l
  filter-last_key n (e ∷ seen) rest l h =
      ground
        (arith, last_key-le (key e) seen rest h.0 h.1, filter-last_key (key e) seen rest h.0 h.1)

  -- Reading above a higher key reads fewer rows.
  pub filter-filter_above :
      (n m : ℕ) (rows : List A)
      → n ≤ m
      → filter (is_above_key m) (filter (is_above_key n) rows) ≡ filter (is_above_key m) rows
  filter-filter_above n m [] h = refl
  filter-filter_above n m (e ∷ rows) h = ground (arith, h, filter-filter_above n m rows h)

  pub filter-above_All :
      (n : ℕ) (rows : List A) → All (λ f. n < key f) (filter (is_above_key n) rows)
  filter-above_All n [] = tt
  filter-above_All n (e ∷ rows) = elim (Bool-cases (is_above_key n e)) [
    | inl c ↦ rw (c, filter) (ground (arith, c), filter-above_All n rows)
    | inr c ↦ rw (c, filter) (filter-above_All n rows)
  ]
