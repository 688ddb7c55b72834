-- ===== src/Moderation/Spam/Window.antt =====
-- The sliding window of a minute.
use krampus.Prelude.{
  ℕ, ◌≤◌, ◌<◌, String, Bool, true, false, List, [], ◌∷◌, ◌++◌, ◌≡◌, ◌≢◌, ◌⊎◌, refl, sym, ◌∙◌, ap,
  inl, inr, if◌then◌else◌, ltb, leb, filter, length, arith, Bool-cases, length-append,
  length-filter-le,
}
use krampus.Prelude.Dict.{Dict, lookup, insert, lookup-insert_self, lookup-insert_ne}
use krampus.Moderation.Spam.{or_nil, is_recent, message_limit, allow}

is_recent-later : (t now x : ℕ) → t ≤ now → is_recent now x ≡ true → is_recent t x ≡ true
unfolding is_recent
is_recent-later t now x le h = ground arith

recent_again :
    (t now : ℕ) (xs : List ℕ)
    → t ≤ now
    → filter (is_recent now) (filter (is_recent t) xs) ≡ filter (is_recent now) xs
recent_again t now [] le = refl
recent_again t now (x ∷ xs) le =
    ground (arith, is_recent-later t now x le, recent_again t now xs le)

fewer_later :
    (t now : ℕ) (xs : List ℕ)
    → t ≤ now
    → length (filter (is_recent now) xs) ≤ length (filter (is_recent t) xs)
fewer_later t now [] le = omega arith
fewer_later t now (x ∷ xs) le = ground (arith, is_recent-later t now x le, fewer_later t now xs le)

filter-append : (p : ℕ → Bool) (xs ys : List ℕ) → filter p (xs ++ ys) ≡ filter p xs ++ filter p ys
filter-append p [] ys = refl
filter-append p (x ∷ xs) ys = ground (arith, filter-append p xs ys)

-- what the protector holds of a user
abbrev held : String → Dict (List ℕ) → List ℕ
held user m = or_nil (lookup user m)

-- Calls in the order of time; `accepted` lists the times of the user's messages that were allowed.
pub data Calls (user : String) : ℕ → List ℕ → Dict (List ℕ) → Type 0 where
  before : Calls user 0 [] []
  mine :
      {t : ℕ} {accepted : List ℕ} {m : Dict (List ℕ)} (now : ℕ)
      → Calls user t accepted m
      → t ≤ now
      → Calls user now
          (if (allow now user m).0 then accepted ++ now ∷ [] else accepted)
          (allow now user m).1
  another :
      {t : ℕ} {accepted : List ℕ} {m : Dict (List ℕ)} (now : ℕ) (other : String)
      → Calls user t accepted m
      → t ≤ now
      → other ≢ user
      → Calls user now accepted (allow now other m).1

allow_cases :
    (now : ℕ) (user : String) (m : Dict (List ℕ))
    → let recent = filter (is_recent now) (held user m) in
      ((message_limit ≤ length recent) × (allow now user m ≡ (false, m)))
      ⊎ ((length recent < message_limit)
          × (allow now user m ≡ (true, insert user (recent ++ now ∷ []) m)))
unfolding allow
allow_cases now user m =
    elim (Bool-cases (leb message_limit (length (filter (is_recent now) (held user m))))) [
      | inl e ↦ inl (ground arith, simp (e, allow))
      | inr e ↦ inr (ground arith, simp (e, allow))
    ]

record Agrees (user : String) (t : ℕ) (accepted : List ℕ) (m : Dict (List ℕ)) : Type 0 where
  same :
      (now : ℕ) → t ≤ now → filter (is_recent now) accepted ≡ filter (is_recent now) (held user m)
  few : length (filter (is_recent t) accepted) ≤ message_limit

refused-Agrees :
    (user : String) (t now : ℕ) (accepted : List ℕ) (m m' : Dict (List ℕ))
    → t ≤ now
    → held user m' ≡ held user m
    → Agrees user t accepted m
    → Agrees user now accepted m'
refused-Agrees user t now accepted m m' le e h = record {
  same = λ now' le'. h.same now' (omega (arith, le, le')) ∙ ap (filter (is_recent now')) (sym e);
  few = omega (arith, fewer_later t now accepted le, h.few);
}

allowed-Agrees :
    (user : String) (t now : ℕ) (accepted : List ℕ) (m m' : Dict (List ℕ))
    → t ≤ now
    → length (filter (is_recent now) (held user m)) < message_limit
    → held user m' ≡ filter (is_recent now) (held user m) ++ now ∷ []
    → Agrees user t accepted m
    → Agrees user now (accepted ++ now ∷ []) m'
allowed-Agrees user t now accepted m m' le room e h = record {
  same = λ now' le'.
      filter-append (is_recent now') accepted (now ∷ [])
      ∙ ap (λ xs. xs ++ filter (is_recent now') (now ∷ []))
          (h.same now' (omega (arith, le, le')) ∙ sym (recent_again now now' (held user m) le'))
      ∙ sym (filter-append (is_recent now') (filter (is_recent now) (held user m)) (now ∷ []))
      ∙ ap (filter (is_recent now')) (sym e);
  few =
      rw (filter-append (is_recent now) accepted (now ∷ []), h.same now le)
        (omega (
          arith,
          room,
          length-append (filter (is_recent now) (held user m)) (filter (is_recent now) (now ∷ [])),
          length-filter-le (is_recent now) (now ∷ []),
        ));
}

Calls-Agrees :
    (user : String) {t : ℕ} {accepted : List ℕ} {m : Dict (List ℕ)}
    → Calls user t accepted m
    → Agrees user t accepted m
unfolding lookup
Calls-Agrees user before = record { same = λ now le. refl; few = omega arith }
Calls-Agrees user (mine {t} {accepted} {m} now calls le) = elim (allow_cases now user m) [
  | inl (full, e) ↦ rw e (refused-Agrees user t now accepted m m le refl (Calls-Agrees user calls))
  | inr (room, e) ↦ rw e (
      allowed-Agrees user t now accepted m _ le room (ap or_nil (lookup-insert_self user _ m))
        (Calls-Agrees user calls))
]
Calls-Agrees user (another {t} {accepted} {m} now other calls le ne) =
    elim (allow_cases now other m) [
      | inl (full, e) ↦
          rw e (refused-Agrees user t now accepted m m le refl (Calls-Agrees user calls))
      | inr (room, e) ↦ rw e (
          refused-Agrees user t now accepted m _ le (ap or_nil (lookup-insert_ne other user _ m ne))
            (Calls-Agrees user calls))
    ]

-- Whatever calls came, by whichever users, in the order of time: of a user's messages that were
-- allowed, at most twenty are less than a minute old, and the next message is allowed exactly if
-- there are fewer.
pub allow_limits :
    (user : String) {t : ℕ} {accepted : List ℕ} {m : Dict (List ℕ)} (now : ℕ)
    → Calls user t accepted m
    → t ≤ now
    → (length (filter (is_recent now) accepted) ≤ message_limit)
      × ((allow now user m).0 ≡ ltb (length (filter (is_recent now) accepted)) message_limit)
allow_limits user {t} {accepted} {m} now calls le =
    let h = Calls-Agrees user calls in
    (
      omega (arith, fewer_later t now accepted le, h.few),
      rw (h.same now le) (elim (allow_cases now user m) [
        | inl (full, e) ↦ rw e (ground (arith, full))
        | inr (room, e) ↦ rw e (ground (arith, room))
      ]),
    )
