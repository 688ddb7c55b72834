-- ===== src/Accounts.antt =====
-- internal/user and internal/auth: registration, login, refresh tokens, sessions and two-factor codes.
-- Passwords (bcrypt, the regular expressions, the length in bytes) and JSON web tokens are parameters.
-- Times are nanoseconds since the epoch, as in Domain/Message.
pub mod Attempts
pub mod Tokens
pub mod Sessions
pub mod Login
pub mod TwoFa
use krampus.Prelude.{ℕ, ◌/◌, String, Bool, Option, List}
use krampus.Prelude.Dict.{Dict}
use krampus.Domain.Errors.{Result}
use krampus.Domain.Message.{second}
use krampus.Domain.Room.{User}

-- A row of users.
pub record Account : Type 0 where
  pub user : User
  pub blocked_until : Option ℕ

-- A row of login_attempts.
pub record LoginAttempt : Type 0 where
  pub email : String
  pub success : Bool
  pub attempted_at : ℕ

-- A row of refresh_tokens; the token is unique.
pub record RefreshRow : Type 0 where
  pub user_id : ℕ
  pub token : String
  pub expires_at : ℕ

-- `TokenResponse`
pub record TokenResponse : Type 0 where
  pub access_token : String
  pub refresh_token : String

-- `CachedSession`
pub record CachedSession : Type 0 where
  pub user_id : ℕ
  pub access_token : String
  pub refresh_token : String
  pub created_at : ℕ
  pub last_activity : ℕ
  pub expires_at : ℕ

-- The tables of users and the two kinds of keys that a login writes to Redis.
pub record AccountWorld : Type 0 where
  pub users : List Account
  pub attempts : List LoginAttempt
  pub tokens : List RefreshRow
  pub access : Dict CachedSession
  pub sessions : Dict CachedSession

-- golang-jwt with the secret of the service: sign the claims `user_id` and `exp`, and the user of a
-- token that is valid at a time.
pub record Jwt : Type 0 where
  pub sign : ℕ → ℕ → Result String
  pub verify : ℕ → String → Result ℕ

-- bcrypt, the three regular expressions of `UserRegister`, and `len`
pub record PasswordLib : Type 0 where
  pub byte_length : String → ℕ
  pub has_letters : String → Bool
  pub has_digits : String → Bool
  pub has_special : String → Bool
  pub hash : String → Result String
  pub matches : String → String → Bool

-- `Unix()`
abbrev pub unix : ℕ → ℕ
unix t = t / second
