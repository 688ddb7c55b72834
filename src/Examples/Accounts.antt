-- ===== src/Examples/Accounts.antt =====
-- The theorems about accounts at concrete inputs.
use krampus.Prelude.{
  ℕ, ◌+◌, ◌-◌, ◌*◌, ◌<◌, ◌≤◌, String, true, false, none, some, List, [], ◌∷◌, ◌≡◌, ◌≢◌, refl, All,
  if◌then◌else◌, ◌==◌, str_eq,
}
use krampus.Prelude.Dict.{lookup}
use krampus.Domain.Errors.{ok}
use krampus.Domain.Message.{minute}
use krampus.Storage.Fault.{Fault}
use krampus.Accounts.{Account, AccountWorld, RefreshRow, TokenResponse, Jwt, PasswordLib}
use krampus.Accounts.Attempts.{find_by_email}
use krampus.Accounts.Tokens.{refresh_time, find_token, RefreshFaults, refresh_get, user_refresh}
use krampus.Accounts.Tokens.Rotation.{user_refresh-find_token}
use krampus.Accounts.Sessions.{validate_session}
use krampus.Accounts.Login.{
  LoginFaults, LoginRequest, LogoutFaults, after_password, user_login, user_logout,
}
use krampus.Accounts.Login.Guarded.{HasFewFailures, HasToken, IsAdmitted, user_login-HasToken}
use krampus.Accounts.Login.Logout.{user_logout-validate_session}
use krampus.Accounts.TwoFa.{
  TwoFaCode, CodeWorld, SendCall, VerifyFaults, count_verifications, select_code, verify_code,
}
use krampus.Accounts.TwoFa.Verified.{IsExchanged, verify_code-IsExchanged}

-- A token is a letter by its user and its end.
abbrev jwt : Jwt
jwt = record {
  sign = λ user end. ok (if end == 604_800 then "r" else if end == 604_860 then "s" else "a");
  verify = λ now token. ok 1;
}

-- The hash of a password is the password.
abbrev passwords : PasswordLib
passwords = record {
  byte_length = λ s. 8;
  has_letters = λ s. true;
  has_digits = λ s. true;
  has_special = λ s. true;
  hash = λ s. ok s;
  matches = λ hash s. str_eq hash s;
}

abbrev number : ℕ → String
number n = if n == 1 then "1" else "2"

abbrev ann : Account
ann = record {
  user = record {
    id = 1;
    username = "ann";
    firstname = "Ann";
    lastname = "A";
    email = "ann@x";
    password_hash = "pw";
    avatar = "";
    two_fa_enabled = false;
    created_at = 0;
    last_active = 0;
    status = none;
    permissions = [];
  };
  blocked_until = none;
}

abbrev world : AccountWorld
world = record { users = ann ∷ []; attempts = []; tokens = []; access = []; sessions = [] }

abbrev calm : LoginFaults
calm = record {
  status = none;
  select = none;
  log = none;
  count = none;
  block = none;
  store = none;
  access = none;
  session = none;
}

abbrev request : LoginRequest
request = record { email = "ann@x"; password = "pw" }

abbrev tokens : TokenResponse
tokens = record { access_token = "a"; refresh_token = "r" }

user_login-HasToken_example :
    (a : Account) × (find_by_email request.email world.users ≡ some a)
    × IsAdmitted passwords jwt number calm 0 a
    × (passwords.matches a.user.password_hash request.password ≡ true)
    × HasFewFailures passwords jwt number calm 0 request world
    × (a.user.two_fa_enabled ≡ false)
    × HasToken passwords jwt number calm 0 a tokens
        (user_login passwords jwt number calm 0 request world).1
unfolding user_login after_password
user_login-HasToken_example =
    user_login-HasToken passwords jwt number calm 0 request world tokens refl

abbrev guesses : List (ℕ × String)
guesses = (1, "p1") ∷ (2, "p2") ∷ []

abbrev quiet : LogoutFaults
quiet = record { select = none; log = none; session = none; delete = none }

user_logout-validate_session_example :
    let w' = (user_logout passwords number quiet 0 1 "pw" world).1 in
    All (λ r. r.user_id ≢ 1) w'.tokens
    × (lookup (number 1) w'.sessions ≡ none)
    × ((g d : Fault) (t : ℕ) (token user : String)
        → validate_session number g d t token user w'.access
          ≡ validate_session number g d t token user world.access)
unfolding user_logout
user_logout-validate_session_example =
    user_logout-validate_session passwords number quiet 0 1 "pw" world refl refl

abbrev smooth : RefreshFaults
smooth = record { get = none; expired = none; store = none; delete = none }

abbrev stored : List RefreshRow
stored = record { user_id = 1; token = "r"; expires_at = refresh_time } ∷ []

-- a minute later
user_refresh-find_token_example :
    (find_token "r" (user_refresh jwt smooth minute "r" stored).1 ≡ none)
    × ((id : ℕ) × ((refresh_get none none minute "r" stored).0 ≡ ok id)
        × (find_token "s" (user_refresh jwt smooth minute "r" stored).1
            ≡ some (record { user_id = id; token = "s"; expires_at = minute + refresh_time })))
unfolding user_refresh
user_refresh-find_token_example =
    user_refresh-find_token jwt smooth minute "r" stored
      (record { access_token = "a"; refresh_token = "s" }) refl refl

-- The table already has the text that is signed next.
abbrev signed : List RefreshRow
signed = record { user_id = 1; token = "s"; expires_at = refresh_time } ∷ []

abbrev sent : TwoFaCode
sent = record {
  id = 4;
  user_id = 1;
  code = "123456";
  expires_at = 5 * minute;
  attempts = 0;
  is_used = false;
  created_at = 0;
}

abbrev codes : CodeWorld
codes = record { codes = sent ∷ []; temps = []; tokens = [] }

abbrev clear : VerifyFaults
clear = record { count = none; select = none; attempts = none; used = none; store = none }

verify_code-IsExchanged_example :
    (user : ℕ) × (c : TwoFaCode) × (jwt.verify 0 "t" ≡ ok user)
    × ((n : ℕ) × (count_verifications none (0 - 10 * minute) user codes.codes ≡ ok n) × (n < 5))
    × (select_code none 0 user codes.codes ≡ ok c)
    × (c.is_used ≡ false)
    × (c.attempts < 3)
    × (0 ≤ c.expires_at)
    × (c.code ≡ "123456")
    × IsExchanged jwt number clear 0 c tokens (verify_code jwt number clear 0 "t" "123456" codes).1
unfolding verify_code
verify_code-IsExchanged_example =
    verify_code-IsExchanged jwt number clear 0 "t" "123456" codes tokens refl

abbrev call : SendCall
call = record {
  now = 0;
  id = 5;
  draw = some 7;
  temp_get = none;
  temp_set = none;
  count = none;
  insert = none;
}
