-- ===== src/Accounts/Tokens/Rows.antt =====
-- The refresh token that a login or a refresh makes is in the table.
use krampus.Prelude.{
  ℕ, ◌+◌, String, none, some, List, [], ◌∷◌, ◌++◌, ◌≡◌, subst, inl, inr, Option-cases, str_eq_refl,
  arith,
}
use krampus.Domain.Errors.{ok, Result-cases}
use krampus.Storage.Fault.{Fault}
use krampus.Accounts.{RefreshRow, Jwt, unix}
use krampus.Accounts.Tokens.{refresh_time, find_token, refresh_store, generate_refresh_token}

find_token-append :
    (r : RefreshRow) (rows : List RefreshRow)
    → find_token r.token rows ≡ none
    → find_token r.token (rows ++ r ∷ []) ≡ some r
unfolding find_token
find_token-append r [] h = ground (arith, str_eq_refl r.token)
find_token-append r (x ∷ rows) h = ground (arith, h, find_token-append r rows)

pub refresh_store-find_token :
    (fault : Fault) (r : RefreshRow) (rows : List RefreshRow)
    → (refresh_store fault r rows).0 ≡ ok tt
    → find_token r.token (refresh_store fault r rows).1 ≡ some r
unfolding refresh_store
refresh_store-find_token fault r rows = elim (Option-cases (find_token r.token rows)) [
  | inr (x, c) ↦ rw (c, refresh_store) (λ h. absurd (let q = h in cc))
  | inl c ↦ elim (Option-cases fault) [
    | inr (x, e) ↦ rw (c, e, refresh_store) (λ h. absurd (let q = h in cc))
    | inl e ↦ rw (c, e, refresh_store) (λ h. find_token-append r rows c)
  ]
]

-- A refresh token that was made is in the table, for its user and for seven days.
pub generate_refresh_token-find_token :
    (jwt : Jwt) (fault : Fault) (now id : ℕ) (rows : List RefreshRow) (token : String)
    → (generate_refresh_token jwt fault now id rows).0 ≡ ok token
    → find_token token (generate_refresh_token jwt fault now id rows).1
      ≡ some (record { user_id = id; token = token; expires_at = now + refresh_time })
unfolding generate_refresh_token
generate_refresh_token-find_token jwt fault now id rows token =
    elim (Result-cases (jwt.sign id (unix (now + refresh_time)))) [
      | inl (x, c) ↦ rw (c, generate_refresh_token) (λ h. absurd (let q = h in cc))
      | inr (signed, c) ↦
          let r : RefreshRow = record {
            user_id = id;
            token = signed;
            expires_at = now + refresh_time;
          } in
          elim (Result-cases (refresh_store fault r rows).0) [
            | inl (x, e) ↦ simp (c, e, generate_refresh_token) (λ h. absurd (let q = h in cc))
            | inr (u, e) ↦
                simp (c, e, generate_refresh_token)
                  (λ h.
                    let same : signed ≡ token = cc in
                    subst
                      (λ z.
                        find_token z (refresh_store fault r rows).1
                        ≡ some
                            (record { user_id = id; token = z; expires_at = now + refresh_time }))
                      same (refresh_store-find_token fault r rows e))
          ]
    ]

-- It was not in the table before.
refresh_store-fresh :
    (fault : Fault) (r : RefreshRow) (rows : List RefreshRow)
    → (refresh_store fault r rows).0 ≡ ok tt
    → find_token r.token rows ≡ none
unfolding refresh_store
refresh_store-fresh fault r rows = elim (Option-cases (find_token r.token rows)) [
  | inr (x, c) ↦ rw (c, refresh_store) (λ h. absurd (let q = h in cc))
  | inl c ↦ λ h. c
]

pub generate_refresh_token-fresh :
    (jwt : Jwt) (fault : Fault) (now id : ℕ) (rows : List RefreshRow) (token : String)
    → (generate_refresh_token jwt fault now id rows).0 ≡ ok token
    → find_token token rows ≡ none
unfolding generate_refresh_token
generate_refresh_token-fresh jwt fault now id rows token =
    elim (Result-cases (jwt.sign id (unix (now + refresh_time)))) [
      | inl (x, c) ↦ rw (c, generate_refresh_token) (λ h. absurd (let q = h in cc))
      | inr (signed, c) ↦
          let r : RefreshRow = record {
            user_id = id;
            token = signed;
            expires_at = now + refresh_time;
          } in
          elim (Result-cases (refresh_store fault r rows).0) [
            | inl (x, e) ↦ simp (c, e, generate_refresh_token) (λ h. absurd (let q = h in cc))
            | inr (u, e) ↦
                simp (c, e, generate_refresh_token)
                  (λ h.
                    let same : signed ≡ token = cc in
                    subst (λ z. find_token z rows ≡ none) same (refresh_store-fresh fault r rows e))
          ]
    ]
