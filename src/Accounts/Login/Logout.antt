-- ===== src/Accounts/Login/Logout.antt =====
-- What a logout ends and what it leaves.
use krampus.Prelude.{
  ℕ, String, not, none, some, List, [], ◌∷◌, ◌≡◌, ◌≢◌, refl, inl, inr, Bool-cases, All, filter,
  ◌==◌, arith,
}
use krampus.Prelude.Dict.{lookup, lookup-delete_self}
use krampus.Domain.Errors.{ok, Result-cases}
use krampus.Storage.Fault.{Fault}
use krampus.Accounts.{RefreshRow, AccountWorld, PasswordLib}
use krampus.Accounts.Attempts.{find_by_id, selected}
use krampus.Accounts.Tokens.{refresh_delete_by_user}
use krampus.Accounts.Sessions.{delete_session, validate_session}
use krampus.Accounts.Login.{LogoutFaults, user_logout}

filter-user :
    (id : ℕ) (rows : List RefreshRow)
    → All (λ r. r.user_id ≢ id) (filter (λ r. not (r.user_id == id)) rows)
filter-user id [] = tt
filter-user id (r ∷ rows) = elim (Bool-cases (r.user_id == id)) [
  | inl e ↦ rw (e, filter) (filter-user id rows)
  | inr e ↦ rw (e, filter) (ground (arith, e), filter-user id rows)
]

refresh_delete_by_user-All :
    (fault : Fault) (id : ℕ) (rows : List RefreshRow)
    → (refresh_delete_by_user fault id rows).0 ≡ ok tt
    → All (λ r. r.user_id ≢ id) (refresh_delete_by_user fault id rows).1
unfolding refresh_delete_by_user
refresh_delete_by_user-All none id rows h = filter-user id rows
refresh_delete_by_user-All (some x) id rows h = absurd (let q = h in cc)

-- A logout that succeeds, and whose call of Redis does, leaves no refresh token of the user and no
-- session under the user's number, but every access token as it was: `ValidateSession` answers on it
-- after the logout exactly as before.
pub user_logout-validate_session :
    (lib : PasswordLib) (format_int : ℕ → String) (f : LogoutFaults) (now id : ℕ)
    (password : String) (w : AccountWorld)
    → f.session ≡ none
    → (user_logout lib format_int f now id password w).0 ≡ ok tt
    → let w' = (user_logout lib format_int f now id password w).1 in
      All (λ r. r.user_id ≢ id) w'.tokens
      × (lookup (format_int id) w'.sessions ≡ none)
      × ((g d : Fault) (t : ℕ) (token user : String)
          → validate_session format_int g d t token user w'.access
            ≡ validate_session format_int g d t token user w.access)
unfolding user_logout delete_session
user_logout-validate_session lib format_int f now id password w s =
    elim (Result-cases (selected f.select (find_by_id id w.users))) [
      | inl (x, c) ↦ simp (c, user_logout) (λ h. absurd (let q = h in cc))
      | inr (a, c) ↦ elim (Bool-cases (lib.matches a.user.password_hash password)) [
        | inr m ↦ simp (c, m, user_logout) (λ h. absurd (let q = h in cc))
        | inl m ↦
            simp (c, m, user_logout)
              (λ h. (
                refresh_delete_by_user-All f.delete id w.tokens h,
                rw (s, delete_session) (lookup-delete_self (format_int id) w.sessions),
                λ g d t token user. refl,
              ))
      ]
    ]
