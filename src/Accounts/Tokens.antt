-- ===== src/Accounts/Tokens.antt =====
-- Refresh tokens: refreshTokenService.go over refreshToken_storage.go, and the access tokens.
pub mod Rows
pub mod Rotation
use krampus.Prelude.{
  ℕ, ◌+◌, ◌*◌, String, Bool, true, false, not, Option, none, some, List, [], ◌∷◌, ◌++◌,
  if◌then◌else◌, str_eq, ltb, ◌==◌, filter,
}
use krampus.Domain.Errors.{Error, Result, ok, err, plain}
use krampus.Domain.Message.{minute}
use krampus.Storage.Fault.{Fault, exec, query}
use krampus.Accounts.{RefreshRow, TokenResponse, Jwt, unix}

abbrev pub access_time : ℕ
access_time = 15 * minute

abbrev pub temp_time : ℕ
temp_time = 10 * minute

-- seven days
abbrev pub refresh_time : ℕ
refresh_time = 10_080 * minute

-- `GenerateAccessToken`
unfoldable pub generate_access_token : Jwt → ℕ → ℕ → Result String
generate_access_token jwt now id = jwt.sign id (unix (now + access_time))

-- `GenerateTempToken`: the same claims with an earlier end
unfoldable pub generate_temp_token : Jwt → ℕ → ℕ → Result String
generate_temp_token jwt now id = jwt.sign id (unix (now + temp_time))

unfoldable pub find_token : String → List RefreshRow → Option RefreshRow
find_token token [] = none
find_token token (r ∷ rows) =
    let rest = find_token token rows in if str_eq r.token token then some r else rest

-- `RefreshStore`: the token is unique in the table
unfoldable pub refresh_store :
    Fault → RefreshRow → List RefreshRow → Result (Unit {0}) × List RefreshRow
unfolding find_token
refresh_store fault r rows = elim (find_token r.token rows) [
  | some old ↦ (err (plain "duplicate key value violates unique constraint"), rows)
  | none ↦ exec fault rows (rows ++ r ∷ [])
]

-- `RefreshDelete`
unfoldable pub refresh_delete :
    Fault → String → List RefreshRow → Result (Unit {0}) × List RefreshRow
refresh_delete fault token rows = exec fault rows (filter (λ r. not (str_eq r.token token)) rows)

-- `RefreshDeleteByUserID`
unfoldable pub refresh_delete_by_user :
    Fault → ℕ → List RefreshRow → Result (Unit {0}) × List RefreshRow
refresh_delete_by_user fault id rows = exec fault rows (filter (λ r. not (r.user_id == id)) rows)

-- `RefreshGet`: an expired token is deleted
unfoldable pub refresh_get :
    Fault → Fault → ℕ → String → List RefreshRow → Result ℕ × List RefreshRow
unfolding find_token refresh_delete
refresh_get (some text) delete_fault now token rows = (err (plain text), rows)
refresh_get none delete_fault now token rows = elim (find_token token rows) [
  | none ↦ (err (plain "no rows in result set"), rows)
  | some r ↦
      if ltb r.expires_at now
      then (err (plain "token expired"), (refresh_delete delete_fault token rows).1)
      else (ok r.user_id, rows)
]

-- `GenerateRefreshToken`
unfoldable pub generate_refresh_token :
    Jwt → Fault → ℕ → ℕ → List RefreshRow → Result String × List RefreshRow
unfolding refresh_store
generate_refresh_token jwt fault now id rows = elim (jwt.sign id (unix (now + refresh_time))) [
  | err x ↦ (err x, rows)
  | ok token ↦
      let stored =
        refresh_store fault
          (record { user_id = id; token = token; expires_at = now + refresh_time }) rows in
      elim stored.0 [ err x ↦ (err x, stored.1) | ok u ↦ (ok token, stored.1) ]
]

-- Which statements of a refresh fail.
pub record RefreshFaults : Type 0 where
  pub get : Fault
  pub expired : Fault
  pub store : Fault
  pub delete : Fault

-- `UserRefresh`: the answer of the last DELETE is dropped
unfoldable pub user_refresh :
    Jwt → RefreshFaults → ℕ → String → List RefreshRow → Result TokenResponse × List RefreshRow
unfolding refresh_get generate_access_token generate_refresh_token refresh_delete
user_refresh jwt f now token rows =
    let found = refresh_get f.get f.expired now token rows in
    elim found.0 [
      | err x ↦ (err (plain "Invalid refresh token"), found.1)
      | ok id ↦ elim (generate_access_token jwt now id) [
        | err x ↦ (err x, found.1)
        | ok access ↦
            let fresh = generate_refresh_token jwt f.store now id found.1 in
            elim fresh.0 [
              | err x ↦ (err x, fresh.1)
              | ok refresh ↦ (
                ok (record { access_token = access; refresh_token = refresh }),
                (refresh_delete f.delete token fresh.1).1,
              )
            ]
      ]
    ]
