-- ===== src/Accounts/Login.antt =====
-- `UserRegister`, `UserLogin` and `UserLogout` of userService.go.
pub mod Guarded
pub mod Guessing
pub mod Logout
use krampus.Prelude.{
  ℕ, ◌+◌, String, Bool, true, false, not, ◌&&◌, ◌||◌, Option, none, some, List, [], ◌∷◌, ◌++◌,
  if◌then◌else◌, str_eq, ltb, leb,
}
use krampus.Prelude.Dict.{Dict}
use krampus.Domain.Errors.{Error, Result, ok, err, plain}
use krampus.Domain.Room.{User}
use krampus.Storage.Fault.{Fault, exec}
use krampus.Accounts.{Account, AccountWorld, TokenResponse, CachedSession, Jwt, PasswordLib}
use krampus.Accounts.Attempts.{
  log_attempt, get_failed_attempts, find_by_email, find_by_id, selected, is_user_blocked,
  block_user,
}
use krampus.Accounts.Tokens.{
  access_time, generate_access_token, generate_temp_token, generate_refresh_token,
  refresh_delete_by_user,
}
use krampus.Accounts.Sessions.{set_access_token, set_session, delete_session}

-- `RegisterRequest`
pub record RegisterRequest : Type 0 where
  pub username : String
  pub firstname : String
  pub lastname : String
  pub email : String
  pub password : String
  pub two_fa_enabled : Bool

-- the checks of `UserRegister`
unfoldable pub check_register : PasswordLib → RegisterRequest → Option Error
check_register lib req =
    if str_eq req.username "" || str_eq req.email ""
    then some (plain "invalid input: username and email are required")
    else if str_eq req.password "" || ltb (lib.byte_length req.password) 8
    then some (plain "invalid password: must be at least 8 characters")
    else if not (lib.has_letters req.password)
        || not (lib.has_digits req.password)
        || not (lib.has_special req.password)
    then some (plain "invalid password: must contain letters, digits and special characters")
    else none

-- the user that `UserRegister` returns, and the row that `InsertUser` adds under its hash
abbrev pub new_user : RegisterRequest → ℕ → ℕ → String → User
new_user req id now hash = record {
  id = id;
  username = req.username;
  firstname = req.firstname;
  lastname = req.lastname;
  email = req.email;
  password_hash = hash;
  avatar = "";
  two_fa_enabled = req.two_fa_enabled;
  created_at = now;
  last_active = 0;
  status = none;
  permissions = [];
}

-- `UserRegister`; the id is the next of the table, and a fault of the INSERT covers its UNIQUE columns
unfoldable pub user_register :
    PasswordLib → Fault → ℕ → ℕ → RegisterRequest → List Account → Result User × List Account
unfolding check_register
user_register lib fault id now req users = elim (check_register lib req) [
  | some x ↦ (err x, users)
  | none ↦ elim (lib.hash req.password) [
    | err x ↦ (err (plain "error hashing password"), users)
    | ok hash ↦ elim fault [
      | some text ↦ (err (plain text), users)
      | none ↦ (
        ok (new_user req id now ""),
        users ++ record { user = new_user req id now hash; blocked_until = none } ∷ [],
      )
    ]
  ]
]

-- What `UserLogin` answers: tokens, or a temporary token for the second factor.
pub data LoginAnswer : Type 0 where
  logged_in : TokenResponse → LoginAnswer
  requires_two_fa : String → LoginAnswer

-- Which calls of a login fail.
pub record LoginFaults : Type 0 where
  pub status : Fault
  pub select : Fault
  pub log : Fault
  pub count : Fault
  pub block : Fault
  pub store : Fault
  pub access : Fault
  pub session : Fault

-- `LoginRequest`
pub record LoginRequest : Type 0 where
  pub email : String
  pub password : String

module _ (lib : PasswordLib) (jwt : Jwt) (format_int : ℕ → String) (f : LoginFaults) (now : ℕ) where
  -- the tokens of a login and what it writes to Redis
  unfoldable pub open_session :
      Account → LoginRequest → AccountWorld → Result LoginAnswer × AccountWorld
  unfolding generate_access_token generate_refresh_token set_access_token set_session log_attempt
  open_session a req w = elim (generate_access_token jwt now a.user.id) [
    | err x ↦ (err x, w)
    | ok access ↦
        let fresh = generate_refresh_token jwt f.store now a.user.id w.tokens in
        elim fresh.0 [
          | err x ↦ (err x, record w { tokens = fresh.1 })
          | ok refresh ↦
              let s : CachedSession = record {
                user_id = a.user.id;
                access_token = access;
                refresh_token = refresh;
                created_at = now;
                last_activity = now;
                expires_at = now + access_time;
              } in
              (
                ok (logged_in (record { access_token = access; refresh_token = refresh })),
                log_attempt f.log now req.email true (record w {
                  tokens = fresh.1;
                  access = (set_access_token f.access access s w.access).1;
                  sessions = (set_session f.session (format_int a.user.id) s w.sessions).1;
                }),
              )
        ]
  ]

  -- after the password: the failed attempts of the last minute, the second factor, the session
  unfoldable pub after_password :
      Account → LoginRequest → AccountWorld → Result LoginAnswer × AccountWorld
  unfolding get_failed_attempts block_user generate_temp_token open_session
  after_password a req w = elim (get_failed_attempts f.count now req.email w.attempts) [
    | err x ↦ (err x, w)
    | ok n ↦
        if leb 5 n
        then (
          err (plain "too many failed attempts, account blocked"),
          block_user f.log f.block now req.email w,
        )
        else if a.user.two_fa_enabled
        then elim (generate_temp_token jwt now a.user.id) [
          | err x ↦ (err x, w)
          | ok token ↦ (ok (requires_two_fa token), w)
        ]
        else open_session a req w
  ]

  -- `UserLogin`
  unfoldable pub user_login : LoginRequest → AccountWorld → Result LoginAnswer × AccountWorld
  unfolding is_user_blocked find_by_email selected log_attempt after_password
  user_login req w =
      if str_eq req.email "" || str_eq req.password ""
      then (err (plain "email and password are required"), w)
      else if (is_user_blocked f.status now req.email w.users).0
      then (err (plain "account temporarily blocked"), w)
      else elim (selected f.select (find_by_email req.email w.users)) [
        | err x ↦ (err (plain "invalid credentials"), log_attempt f.log now req.email false w)
        | ok a ↦
            if lib.matches a.user.password_hash req.password
            then after_password a req w
            else (err (plain "invalid credentials"), log_attempt f.log now req.email false w)
      ]

-- Which calls of a logout fail.
pub record LogoutFaults : Type 0 where
  pub select : Fault
  pub log : Fault
  pub session : Fault
  pub delete : Fault

-- `UserLogout`
unfoldable pub user_logout :
    PasswordLib
    → (ℕ → String)
    → LogoutFaults
    → ℕ
    → ℕ
    → String
    → AccountWorld
    → Result (Unit {0}) × AccountWorld
unfolding find_by_id selected log_attempt delete_session refresh_delete_by_user
user_logout lib format_int f now id password w = elim (selected f.select (find_by_id id w.users)) [
  | err x ↦ (err (plain "invalid credentials"), w)
  | ok a ↦
      if lib.matches a.user.password_hash password
      then (
        (refresh_delete_by_user f.delete id w.tokens).0,
        record w {
          sessions = (delete_session f.session (format_int id) w.sessions).1;
          tokens = (refresh_delete_by_user f.delete id w.tokens).1;
        },
      )
      else (err (plain "invalid credentials"), log_attempt f.log now a.user.email false w)
]
