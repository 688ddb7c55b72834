-- ===== src/Accounts/Attempts.antt =====
-- Login attempts and blocks: loginAttempt_storage.go, the rows of psql_user_storage.go, and
-- `LogLoginAttempt`, `GetFailedAttempts`, `IsUserBlocked` and `BlockUser` of userService.go.
use krampus.Prelude.{
  ℕ, ◌+◌, ◌-◌, ◌*◌, ◌/◌, String, Bool, true, false, Option, none, some, List, [], ◌∷◌, ◌++◌,
  if◌then◌else◌, str_eq, ltb, leb, ◌==◌, filter, length,
}
use krampus.Domain.Errors.{Result, ok, err, plain}
use krampus.Domain.Message.{second, minute}
use krampus.Storage.Fault.{Fault, exec, query}
use krampus.Accounts.{Account, LoginAttempt, AccountWorld, unix}

-- `LogLoginAttempt`: an error is only logged
unfoldable pub log_attempt : Fault → ℕ → String → Bool → AccountWorld → AccountWorld
log_attempt fault now email success w = record w {
  attempts =
      (exec fault w.attempts
        (w.attempts ++ record { email = email; success = success; attempted_at = now } ∷ [])).1;
}

abbrev pub is_failure_since : ℕ → String → LoginAttempt → Bool
is_failure_since since email a =
    if str_eq a.email email then (if a.success then false else leb since a.attempted_at) else false

-- `GetFailedAttempts`, a window of a minute
unfoldable pub get_failed_attempts : Fault → ℕ → String → List LoginAttempt → Result ℕ
get_failed_attempts fault now email rows =
    query fault (length (filter (is_failure_since (now - minute) email) rows))

-- SELECT … FROM users WHERE email = $1
unfoldable pub find_by_email : String → List Account → Option Account
find_by_email email [] = none
find_by_email email (a ∷ users) =
    let rest = find_by_email email users in if str_eq a.user.email email then some a else rest

unfoldable pub find_by_id : ℕ → List Account → Option Account
find_by_id id [] = none
find_by_id id (a ∷ users) =
    let rest = find_by_id id users in if a.user.id == id then some a else rest

-- `SelectUserByEmail` and `SelectUserByID`: no row is an error
unfoldable pub selected : Fault → Option Account → Result Account
selected (some text) row = err (plain text)
selected none none = err (plain "no rows in result set")
selected none (some a) = ok a

-- `UserBlocked` and `IsUserBlocked`: an error of the query, and no row, mean not blocked; the number is
-- that of the minutes left, rounded up
unfoldable pub is_user_blocked : Fault → ℕ → String → List Account → Bool × ℕ
unfolding find_by_email
is_user_blocked (some text) now email users = (false, 0)
is_user_blocked none now email users = elim (find_by_email email users) [
  | none ↦ (false, 0)
  | some a ↦ elim a.blocked_until [
    | none ↦ (false, 0)
    | some t ↦ if ltb now t then (true, (t - now + (minute - 1)) / minute) else (false, 0)
  ]
]

-- UPDATE users SET blocked_until = $2 WHERE email = $1
unfoldable pub set_blocked : String → ℕ → List Account → List Account
set_blocked email t [] = []
set_blocked email t (a ∷ users) =
    let rest = set_blocked email t users in
    (if str_eq a.user.email email then record a { blocked_until = some t } else a) ∷ rest

-- `BlockUser`: a failed attempt is logged, and the block ends a minute from now, in whole seconds
-- (RFC 3339)
unfoldable pub block_user : Fault → Fault → ℕ → String → AccountWorld → AccountWorld
unfolding log_attempt set_blocked
block_user log_fault block_fault now email w =
    let logged = log_attempt log_fault now email false w in
    record logged {
      users =
          (exec block_fault w.users (set_blocked email (unix (now + minute) * second) w.users)).1;
    }
