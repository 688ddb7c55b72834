-- ===== src/Accounts/Sessions.antt =====
-- The sessions in Redis: redis_session_storage.go. Redis drops a key when its time to live has passed,
-- which is when the session ends; a drop may come late, so the expiry that the code checks itself is
-- what decides here.
use krampus.Prelude.{ℕ, String, none, some, if◌then◌else◌, ltb, ◌==◌, str_eq}
use krampus.Prelude.Dict.{Dict, lookup, insert, delete}
use krampus.Domain.Errors.{Result, ok, err, plain}
use krampus.Storage.Fault.{Fault, exec}
use krampus.Accounts.{CachedSession}

-- `SetAccessToken`
unfoldable pub set_access_token :
    Fault → String → CachedSession → Dict CachedSession → Result (Unit {0}) × Dict CachedSession
set_access_token fault token s d = exec fault d (insert token s d)

-- `GetAccessToken`; a session that has ended is deleted, and the answer of that is dropped
unfoldable pub get_access_token :
    Fault → Fault → ℕ → String → Dict CachedSession → Result CachedSession × Dict CachedSession
unfolding lookup
get_access_token (some text) delete_fault now token d = (err (plain text), d)
get_access_token none delete_fault now token d = elim (lookup token d) [
  | none ↦ (err (plain "token not found"), d)
  | some s ↦
      if ltb s.expires_at now
      then (err (plain "token expired"), (exec delete_fault d (delete token d)).1)
      else (ok s, d)
]

-- `SetSessionByUserID` and `DeleteSessionByUserID`; the key is the number of the user
unfoldable pub set_session :
    Fault → String → CachedSession → Dict CachedSession → Result (Unit {0}) × Dict CachedSession
set_session fault user s d = exec fault d (insert user s d)

unfoldable pub delete_session :
    Fault → String → Dict CachedSession → Result (Unit {0}) × Dict CachedSession
delete_session fault user d = exec fault d (delete user d)

-- `ValidateSession`; the owner is compared as a text
unfoldable pub validate_session :
    (ℕ → String)
    → Fault
    → Fault
    → ℕ
    → String
    → String
    → Dict CachedSession
    → Result (Unit {0}) × Dict CachedSession
unfolding get_access_token
validate_session format_int fault delete_fault now token user d =
    let got = get_access_token fault delete_fault now token d in
    elim got.0 [
      | err x ↦ (err x, got.1)
      | ok s ↦
          if s.user_id == 0
          then (err (plain "session not found"), got.1)
          else if str_eq (format_int s.user_id) user
          then (ok tt, got.1)
          else (err (plain "invalid session owner"), got.1)
    ]
