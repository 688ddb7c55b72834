-- ===== src/Files/Assembly.antt =====
-- The chunks of a session come back in the order of their indices, in whatever order they were sent.
use krampus.Prelude.{
  ℕ, ◌<◌, String, none, List, [], ◌∷◌, ◌≡◌, ◌≢◌, ◌↔◌, refl, sym, ap, ◌∙◌, inl, inr, In, All, All-In,
  filter, arith, Bool-cases, eq_iff,
}
use krampus.Prelude.Order.{
  order_by, IsAscending, HasDistinctKeys, order_by-IsAscending, In-order_by, All-order_by,
}
use krampus.Domain.Errors.{ok}
use krampus.Files.Recorded.{HasOtherKey, HasKeys}
use krampus.Files.{Chunk, is_of_session, by_index, get_chunks}

module _ {A : Type 0} (key : A → ℕ) where
  -- The first of an ascending list that has the members of another is the first of that.
  same_head :
      (x y : A) (xs ys : List A)
      → IsAscending key (x ∷ xs)
      → IsAscending key (y ∷ ys)
      → In x (y ∷ ys)
      → In y (x ∷ xs)
      → y ≡ x
  same_head x y xs ys a b (inl e) n = e
  same_head x y xs ys a b (inr m) (inl e) = sym e
  same_head x y xs ys a b (inr m) (inr n) =
      let above = All-In (λ z. key y < key z) x ys b.0 m in
      let below = All-In (λ z. key x < key z) y xs a.0 n in absurd (omega (arith, above, below))

  tail_member :
      (x y z : A) (xs ys : List A)
      → IsAscending key (x ∷ xs)
      → y ≡ x
      → In z xs
      → In z (y ∷ ys)
      → In z ys
  tail_member x y z xs ys a e m (inr n) = n
  tail_member x y z xs ys a e m (inl q) =
      let above = All-In (λ w. key x < key w) z xs a.0 m in
      absurd (omega (arith, above, ap key e, ap key q))

  -- Two ascending lists with the same members are the same.
  pub IsAscending-unique :
      (xs ys : List A)
      → IsAscending key xs
      → IsAscending key ys
      → ((z : A) → In z xs ↔ In z ys)
      → xs ≡ ys
  IsAscending-unique [] [] a b h = refl
  IsAscending-unique [] (y ∷ ys) a b h = absurd ((h y).1 (inl refl))
  IsAscending-unique (x ∷ xs) [] a b h = absurd ((h x).0 (inl refl))
  IsAscending-unique (x ∷ xs) (y ∷ ys) a b h =
      let e : y ≡ x = same_head x y xs ys a b ((h x).0 (inl refl)) ((h y).1 (inl refl)) in
      ap (λ z. z ∷ xs) (sym e)
      ∙ ap (λ zs. y ∷ zs)
          (IsAscending-unique xs ys a.1 b.1 (λ z. (
            λ m. tail_member x y z xs ys a e m ((h z).0 (inr m)),
            λ m. tail_member y x z ys xs b (sym e) m ((h z).1 (inr m)),
          )))

All-members :
    {A : Type 0} (xs all : List A) → ((z : A) → In z xs → In z all) → All (λ z. In z all) xs
All-members [] all f = tt
All-members (x ∷ xs) all f = (f x (inl refl), All-members xs all (λ z m. f z (inr m)))

-- Rows of one session with different keys have different indices.
other_index :
    (session : String) (c : Chunk) (rows : List Chunk)
    → c.session_id ≡ session
    → All (HasOtherKey c) rows
    → All (λ d. c.chunk_index ≢ d.chunk_index) (filter (is_of_session session) rows)
other_index session c [] s h = tt
other_index session c (d ∷ rows) s h = elim (Bool-cases (is_of_session session d)) [
  | inl e ↦
      let same : d.session_id ≡ session = ground (arith, e, eq_iff d.session_id session) in
      rw (e, filter) (λ q. h.0 (s ∙ sym same, q), other_index session c rows s h.1)
  | inr e ↦ rw (e, filter) (other_index session c rows s h.1)
]

HasDistinctKeys-session :
    (session : String) (rows : List Chunk)
    → HasKeys rows
    → HasDistinctKeys by_index (filter (is_of_session session) rows)
HasDistinctKeys-session session [] h = tt
HasDistinctKeys-session session (c ∷ rows) h = elim (Bool-cases (is_of_session session c)) [
  | inl e ↦
      let same : c.session_id ≡ session = ground (arith, e, eq_iff c.session_id session) in
      rw (e, filter) (other_index session c rows same h.0, HasDistinctKeys-session session rows h.1)
  | inr e ↦ rw (e, filter) (HasDistinctKeys-session session rows h.1)
]

-- When the rows have distinct keys and those of a session are the parts of a file, in whatever order
-- they were added, `GetChunks` gives the parts in the order of their indices.
pub get_chunks-parts :
    (session : String) (rows parts : List Chunk)
    → HasKeys rows
    → IsAscending by_index parts
    → ((c : Chunk) → In c (filter (is_of_session session) rows) ↔ In c parts)
    → get_chunks none session rows ≡ ok parts
unfolding get_chunks
get_chunks-parts session rows parts k a h =
    let own = filter (is_of_session session) rows in
    ap ok (
      IsAscending-unique by_index (order_by by_index own) parts
        (order_by-IsAscending by_index own (HasDistinctKeys-session session rows k)) a
        (λ c. (
          λ m. (h c).0 (
              All-In (λ z. In z own) c (order_by by_index own)
                (All-order_by by_index (λ z. In z own) own (All-members own own (λ z y. y))) m),
          λ m. In-order_by by_index c own ((h c).1 m),
        )))
