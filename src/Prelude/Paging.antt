-- ===== src/Prelude/Paging.antt =====
-- Rows of a table that are read in pages by a numeric key: the rows above the last key of a page are
-- those that followed the page.
use krampus.Prelude.Tests.{Bool-cases}
use krampus.Prelude.Lists.{length, take, filter, All, All-filter, In, In-filter}
use krampus.Prelude.Order.{
  order_by, is_above_key, last_key, IsAscending, HasDistinctKeys, order_by-IsAscending,
  filter-order_by, filter-last_key, filter-filter_above, filter-above_All, All-order_by,
  In-order_by, last_key-le,
}
use Prim.Native.Nat.{ℕ, suc, zero, ◌≤◌, ◌<◌}
use mathlib.Core.Path.{◌≡◌, refl, sym, ap, ◌∙◌, subst}
use mathlib.Core.Logic.{◌≢◌, inl, inr}
use mathlib.Core.List.{List, [], ◌∷◌, ◌++◌}
use native.Mathlib.Omega.{arith}

abbrev pub drop : {A : Type 0} → ℕ → List A → List A
drop zero xs = xs
drop (suc n) [] = []
drop (suc n) (x ∷ xs) = drop n xs

pub take-drop : {A : Type 0} (n : ℕ) (xs : List A) → take n xs ++ drop n xs ≡ xs
take-drop zero xs = refl
take-drop (suc n) [] = refl
take-drop (suc n) (x ∷ xs) = ap (λ ys. x ∷ ys) (take-drop n xs)

pub drop-none :
    {A : Type 0} (n : ℕ) (xs : List A) → length (take (suc n) xs) ≡ 0 → drop (suc n) xs ≡ []
drop-none n [] h = refl
drop-none n (x ∷ xs) h = absurd (omega (arith, h))

pub length-drop-le : {A : Type 0} (n : ℕ) (xs : List A) → length (drop n xs) ≤ length xs
length-drop-le zero xs = omega arith
length-drop-le (suc n) [] = omega arith
length-drop-le (suc n) (x ∷ xs) = omega (arith, length-drop-le n xs)

pub length-drop-lt :
    {A : Type 0} (n : ℕ) (xs : List A)
    → 0 < length (take (suc n) xs)
    → length (drop (suc n) xs) < length xs
length-drop-lt n [] h = absurd (omega (arith, h))
length-drop-lt n (x ∷ xs) h = omega (arith, length-drop-le n xs)

module _ {A : Type 0} (key : A → ℕ) where
  -- SELECT … WHERE key > n ORDER BY key
  unfoldable pub rows_after : ℕ → List A → List A
  unfolding order_by
  rows_after n rows = order_by key (filter (is_above_key key n) rows)

  HasDistinctKeys-filter :
      (n : ℕ) (rows : List A)
      → HasDistinctKeys key rows
      → HasDistinctKeys key (filter (is_above_key key n) rows)
  HasDistinctKeys-filter n [] d = tt
  HasDistinctKeys-filter n (e ∷ rows) d = elim (Bool-cases (is_above_key key n e)) [
    | inl c ↦
        rw (c, filter)
          (
            All-filter (λ f. key e ≢ key f) (is_above_key key n) rows d.0,
            HasDistinctKeys-filter n rows d.1,
          )
    | inr c ↦ rw (c, filter) (HasDistinctKeys-filter n rows d.1)
  ]

  pub rows_after-All : (rows : List A) (n : ℕ) → All (λ e. n < key e) (rows_after n rows)
  unfolding rows_after
  rows_after-All rows n =
      All-order_by key (λ e. n < key e) (filter (is_above_key key n) rows)
        (filter-above_All key n rows)

  pub rows_after-In :
      (rows : List A) (n : ℕ) (e : A) → In e rows → n < key e → In e (rows_after n rows)
  unfolding rows_after
  rows_after-In rows n e m l =
      In-order_by key e (filter (is_above_key key n) rows)
        (In-filter (is_above_key key n) e rows (ground (arith, l)) m)

  module _ (rows : List A) (distinct : HasDistinctKeys key rows) where
    pub rows_after-IsAscending : (n : ℕ) → IsAscending key (rows_after n rows)
    unfolding rows_after
    rows_after-IsAscending n =
        order_by-IsAscending key (filter (is_above_key key n) rows)
          (HasDistinctKeys-filter n rows distinct)

    -- Reading on from a higher number is filtering what was read.
    rows_after-filter :
        (n m : ℕ) → n ≤ m → rows_after m rows ≡ filter (is_above_key key m) (rows_after n rows)
    unfolding rows_after
    rows_after-filter n m h =
        sym (filter-order_by key (is_above_key key m) rows distinct)
        ∙ sym (filter-filter_above key n m (order_by key rows) h)
        ∙ ap (filter (is_above_key key m)) (filter-order_by key (is_above_key key n) rows distinct)

    -- The next page.
    page_split :
        (n : ℕ) (seen rest : List A)
        → seen ++ rest ≡ rows_after n rows
        → rows_after (last_key key n seen) rows ≡ rest
    page_split n seen rest e =
        let above : All (λ f. n < key f) (seen ++ rest) =
          subst (All (λ f. n < key f)) (sym e) (rows_after-All rows n) in
        let sorted : IsAscending key (seen ++ rest) =
          subst (IsAscending key) (sym e) (rows_after-IsAscending n) in
        rows_after-filter n (last_key key n seen) (last_key-le key n seen rest above sorted)
        ∙ ap (filter (is_above_key key (last_key key n seen))) (sym e)
        ∙ filter-last_key key n seen rest above sorted

    pub rows_after-page :
        (n k : ℕ)
        → rows_after (last_key key n (take k (rows_after n rows))) rows ≡ drop k (rows_after n rows)
    rows_after-page n k =
        page_split n (take k (rows_after n rows)) (drop k (rows_after n rows))
          (take-drop k (rows_after n rows))
