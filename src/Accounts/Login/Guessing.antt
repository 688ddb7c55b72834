-- ===== src/Accounts/Login/Guessing.antt =====
-- Logins with a wrong password, one after the other.
use krampus.Prelude.{ℕ, String, false, none, some, List, [], ◌∷◌, ◌≡◌, ◌≢◌, ◌≤◌, some}
use krampus.Domain.Errors.{Result}
use krampus.Storage.Fault.{Fault}
use krampus.Accounts.{Account, LoginAttempt, AccountWorld, Jwt, PasswordLib}
use krampus.Accounts.Login.{LoginAnswer, LoginFaults, LoginRequest, user_login}

-- What the log keeps of rows that are added one by one.
abbrev pub kept : Fault → List LoginAttempt → List LoginAttempt
kept none rows = rows
kept (some text) rows = []

module _ (lib : PasswordLib) (jwt : Jwt) (format_int : ℕ → String) (f : LoginFaults)
    (email : String) where
  abbrev pub login_request : String → LoginRequest
  login_request password = record { email = email; password = password }

  -- Logins with the passwords of a list, each at its time: the answers and what they leave.
  unfoldable pub guess_all :
      List (ℕ × String) → AccountWorld → List (Result LoginAnswer) × AccountWorld
  unfolding user_login
  guess_all [] w = ([], w)
  guess_all ((now, password) ∷ guesses) w =
      let first = user_login lib jwt format_int f now (login_request password) w in
      let rest = guess_all guesses first.1 in (first.0 ∷ rest.0, rest.1)

  abbrev pub IsWrong : Account → ℕ × String → Type 0
  IsWrong a guess =
      (guess.1 ≢ "")
      × (lib.matches a.user.password_hash guess.1 ≡ false)
      × ((t : ℕ) → a.blocked_until ≡ some t → t ≤ guess.0)

  -- The attempt that a wrong guess is.
  abbrev pub failed_attempt : ℕ × String → LoginAttempt
  failed_attempt guess = record { email = email; success = false; attempted_at = guess.0 }
