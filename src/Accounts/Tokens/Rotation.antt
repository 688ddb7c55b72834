-- ===== src/Accounts/Tokens/Rotation.antt =====
-- What a refresh does with the old token and the new one.
use krampus.Prelude.{
  ℕ, ◌+◌, String, false, none, some, List, [], ◌∷◌, ◌≡◌, refl, ap, ◌∙◌, inl, inr, Option-cases,
  Bool-cases, if◌then◌else◌, str_eq, str_eq_refl, eq_iff, ltb, arith,
}
use krampus.Domain.Errors.{ok, Result-cases}
use krampus.Storage.Fault.{Fault}
use krampus.Accounts.{RefreshRow, TokenResponse, Jwt}
use krampus.Accounts.Tokens.{
  refresh_time, find_token, refresh_delete, refresh_get, generate_access_token,
  generate_refresh_token, RefreshFaults, user_refresh,
}
use krampus.Accounts.Tokens.Rows.{generate_refresh_token-find_token, generate_refresh_token-fresh}

find_token-delete :
    (token other : String) (rows : List RefreshRow)
    → find_token other (refresh_delete none token rows).1
      ≡ (if str_eq token other then none else find_token other rows)
unfolding find_token refresh_delete
find_token-delete token other [] = ground arith
find_token-delete token other (r ∷ rows) = ground (
  arith,
  eq_iff r.token token,
  eq_iff r.token other,
  eq_iff token other,
  find_token-delete token other rows,
)

IsStored : String → List RefreshRow → Type 0
IsStored token rows = (r : RefreshRow) × (find_token token rows ≡ some r)

refresh_get-find_token :
    (fault delete_fault : Fault) (now : ℕ) (token : String) (rows : List RefreshRow) (id : ℕ)
    → (refresh_get fault delete_fault now token rows).0 ≡ ok id
    → IsStored token (refresh_get fault delete_fault now token rows).1
unfolding refresh_get IsStored
refresh_get-find_token (some x) delete_fault now token rows id = λ h. absurd (let q = h in cc)
refresh_get-find_token none delete_fault now token rows id =
    elim (Option-cases (find_token token rows)) [
      | inl c ↦ rw (c, refresh_get) (λ h. absurd (let q = h in cc))
      | inr (r, c) ↦ elim (Bool-cases (ltb r.expires_at now)) [
        | inl d ↦ simp (c, d, refresh_get) (λ h. absurd (let q = h in cc))
        | inr d ↦ simp (c, d, refresh_get) (λ h. (r, refl))
      ]
    ]

tokens_differ :
    (token other : String) (rows : List RefreshRow)
    → IsStored token rows
    → find_token other rows ≡ none
    → str_eq token other ≡ false
unfolding IsStored
tokens_differ token other rows h f = elim (Bool-cases (str_eq token other)) [
  | inr c ↦ c
  | inl c ↦
      let same : token ≡ other = ground (arith, c, eq_iff token other) in
      let x = h.1 in let y = f in absurd cc
]

-- When a refresh answers with tokens and its DELETE does not fail, the token it was asked with is gone
-- and the new one is in the table, for seven days and for the user that the old one was found for.
pub user_refresh-find_token :
    (jwt : Jwt) (f : RefreshFaults) (now : ℕ) (token : String) (rows : List RefreshRow)
    (t : TokenResponse)
    → f.delete ≡ none
    → (user_refresh jwt f now token rows).0 ≡ ok t
    → (find_token token (user_refresh jwt f now token rows).1 ≡ none)
      × ((id : ℕ) × ((refresh_get f.get f.expired now token rows).0 ≡ ok id)
          × (find_token t.refresh_token (user_refresh jwt f now token rows).1
              ≡ some (record {
                user_id = id;
                token = t.refresh_token;
                expires_at = now + refresh_time;
              })))
unfolding user_refresh
user_refresh-find_token jwt f now token rows t g =
    let found = refresh_get f.get f.expired now token rows in
    elim (Result-cases found.0) [
      | inl (x, c) ↦ simp (c, user_refresh) (λ h. absurd (let q = h in cc))
      | inr (id, c) ↦ elim (Result-cases (generate_access_token jwt now id)) [
        | inl (x, d) ↦ simp (c, d, user_refresh) (λ h. absurd (let q = h in cc))
        | inr (access, d) ↦
            elim (Result-cases (generate_refresh_token jwt f.store now id found.1).0) [
              | inl (x, e) ↦ simp (c, d, e, user_refresh) (λ h. absurd (let q = h in cc))
              | inr (refresh, e) ↦
                  simp (c, d, e, g, user_refresh)
                    (λ h.
                      let same : refresh ≡ t.refresh_token = cc in
                      let fresh =
                        generate_refresh_token-fresh jwt f.store now id found.1 t.refresh_token
                          (e ∙ ap ok same) in
                      let stored =
                        generate_refresh_token-find_token jwt f.store now id found.1 t.refresh_token
                          (e ∙ ap ok same) in
                      let old = refresh_get-find_token f.get f.expired now token rows id c in
                      let other = tokens_differ token t.refresh_token found.1 old fresh in
                      (
                        find_token-delete token token _ ∙ rw (str_eq_refl token) refl,
                        (id, refl, find_token-delete token t.refresh_token _ ∙ rw (other) stored),
                      ))
            ]
      ]
    ]
