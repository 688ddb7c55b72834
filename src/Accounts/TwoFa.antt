-- ===== src/Accounts/TwoFa.antt =====
-- internal/auth/service/twofaService.go over psqlTwofaStorage.go and the temporary tokens of
-- redis_session_storage.go.
-- A call is one step; the source reads the attempts of a code and writes them back without a transaction,
-- so that calls at the same time may count one attempt between them.
pub mod Verified
pub mod Requests
use krampus.Prelude.{
  ℕ, suc, ◌+◌, ◌-◌, ◌*◌, String, Bool, true, false, not, Option, none, some, List, [], ◌∷◌, ◌++◌,
  if◌then◌else◌, str_eq, ltb, leb, ◌==◌, filter, length,
}
use Prim.Native.String.{◌++◌ as text_append}
use krampus.Prelude.Dict.{Dict, lookup, insert}
use krampus.Domain.Errors.{Error, Result, ok, err, plain}
use krampus.Domain.Message.{minute}
use krampus.Storage.Fault.{Fault, exec, query}
use krampus.Accounts.{RefreshRow, TokenResponse, Jwt}
use krampus.Accounts.Tokens.{temp_time, generate_access_token, generate_refresh_token}

-- `TwoFaCode`, a row of two_fa_codes
pub record TwoFaCode : Type 0 where
  pub id : ℕ
  pub user_id : ℕ
  pub code : String
  pub expires_at : ℕ
  pub attempts : ℕ
  pub is_used : Bool
  pub created_at : ℕ

-- `CachedTempToken`
pub record CachedTempToken : Type 0 where
  pub user_id : ℕ
  pub created_at : ℕ
  pub expires_at : ℕ

pub record CodeWorld : Type 0 where
  pub codes : List TwoFaCode
  pub temps : Dict CachedTempToken
  pub tokens : List RefreshRow

-- WHERE user_id = $1 AND is_used = false AND expires_at > CURRENT_TIMESTAMP
abbrev pub is_open : ℕ → ℕ → TwoFaCode → Bool
is_open now user c =
    if c.user_id == user then (if c.is_used then false else ltb now c.expires_at) else false

-- ORDER BY created_at DESC LIMIT 1
unfoldable pub newest : List TwoFaCode → Option TwoFaCode
newest [] = none
newest (c ∷ codes) = elim (newest codes) [
  | none ↦ some c
  | some d ↦ if ltb c.created_at d.created_at then some d else some c
]

-- `SelectTwoFaCodeByUserID`
unfoldable pub select_code : Fault → ℕ → ℕ → List TwoFaCode → Result TwoFaCode
unfolding newest
select_code (some text) now user codes = err (plain text)
select_code none now user codes = elim (newest (filter (is_open now user) codes)) [
  | none ↦ err (plain "no rows in result set")
  | some c ↦ ok c
]

abbrev pub is_request : ℕ → ℕ → TwoFaCode → Bool
is_request since user c = if c.user_id == user then leb since c.created_at else false

-- `SelectRecentCodeRequests`
unfoldable pub count_requests : Fault → ℕ → ℕ → List TwoFaCode → Result ℕ
count_requests fault since user codes = query fault (length (filter (is_request since user) codes))

abbrev pub is_verification : ℕ → ℕ → TwoFaCode → Bool
is_verification since user c = if is_request since user c then ltb 0 c.attempts else false

-- `SelectRecentVerificationAttempts`
unfoldable pub count_verifications : Fault → ℕ → ℕ → List TwoFaCode → Result ℕ
count_verifications fault since user codes =
    query fault (length (filter (is_verification since user) codes))

-- an UPDATE of the row with an id
unfoldable pub update_code : (TwoFaCode → TwoFaCode) → ℕ → List TwoFaCode → List TwoFaCode
update_code g id [] = []
update_code g id (c ∷ codes) =
    let rest = update_code g id codes in (if c.id == id then g c else c) ∷ rest

-- `RenovationTwoFaCodeAttempts` and `MarkTwoFaCodeUsed`
abbrev pub with_attempts : ℕ → TwoFaCode → TwoFaCode
with_attempts n c = record c { attempts = n }

abbrev pub used : TwoFaCode → TwoFaCode
used c = record c { is_used = true }

-- `generateSixDigitCode`: `draw` is the number that crypto/rand answers, below 899999; an error of it
-- gives the empty code
unfoldable pub generate_six_digit_code : (ℕ → String) → Option ℕ → String
generate_six_digit_code format_six none = ""
generate_six_digit_code format_six (some n) = format_six (n + 100_000)

-- Which calls of `UsersSendEmailCode` fail, and what crypto/rand answers.
pub record SendCall : Type 0 where
  pub now : ℕ
  pub id : ℕ
  pub draw : Option ℕ
  pub temp_get : Fault
  pub temp_set : Fault
  pub count : Fault
  pub insert : Fault

-- The user of a temporary token: the cached one while it lasts, else that of the signed token, which is
-- then cached.
unfoldable pub temp_user :
    Jwt → SendCall → String → Dict CachedTempToken → Result ℕ × Dict CachedTempToken
unfolding lookup
temp_user jwt a token temps =
    let cached : Option CachedTempToken = elim a.temp_get [
      | some text ↦ none
      | none ↦ lookup token temps
    ] in
    let live : Option CachedTempToken = elim cached [
      | none ↦ none
      | some t ↦ if ltb a.now t.expires_at then some t else none
    ] in
    elim live [
      | some t ↦ (ok t.user_id, temps)
      | none ↦ elim (jwt.verify a.now token) [
        | err x ↦ (err (plain "Invalid temp token"), temps)
        | ok user ↦ (
          ok user,
          (exec a.temp_set temps (
              insert token
                (record { user_id = user; created_at = a.now; expires_at = a.now + temp_time })
                temps)).1,
        )
      ]
    ]

-- `UsersSendEmailCode`; `sendEmail` only prints
unfoldable pub send_email_code :
    Jwt → (ℕ → String) → SendCall → String → CodeWorld → Result (Unit {0}) × CodeWorld
unfolding temp_user count_requests generate_six_digit_code
send_email_code jwt format_six a token w =
    let user = temp_user jwt a token w.temps in
    let w' : CodeWorld = record w { temps = user.1 } in
    elim user.0 [
      | err x ↦ (err x, w')
      | ok id ↦ elim (count_requests a.count (a.now - 15 * minute) id w.codes) [
        | err x ↦ (err x, w')
        | ok n ↦
            if leb 3 n
            then (err (plain "too many code requests, please try again later"), w')
            else let row : TwoFaCode = record {
              id = a.id;
              user_id = id;
              code = generate_six_digit_code format_six a.draw;
              expires_at = a.now + 5 * minute;
              attempts = 0;
              is_used = false;
              created_at = a.now;
            } in
              let stored = exec a.insert w.codes (w.codes ++ row ∷ []) in
              (stored.0, record w' { codes = stored.1 })
      ]
    ]

-- Which calls of `VerifyCode` fail.
pub record VerifyFaults : Type 0 where
  pub count : Fault
  pub select : Fault
  pub attempts : Fault
  pub used : Fault
  pub store : Fault

module _ (jwt : Jwt) (format_int : ℕ → String) (f : VerifyFaults) (now : ℕ) where
  -- a code that does not match: its attempts are counted
  unfoldable pub refuse_code : TwoFaCode → CodeWorld → Result TokenResponse × CodeWorld
  unfolding update_code
  refuse_code c w = elim f.attempts [
    | some text ↦ (err (plain text), w)
    | none ↦ (
      err (
          plain (
            text_append "invalid code, "
              (text_append (format_int (3 - (c.attempts + 1))) " attempts remaining"))),
      record w { codes = update_code (with_attempts (c.attempts + 1)) c.id w.codes },
    )
  ]

  -- the two tokens
  unfoldable pub issue_tokens : ℕ → CodeWorld → Result TokenResponse × CodeWorld
  unfolding generate_access_token generate_refresh_token
  issue_tokens user w = elim (generate_access_token jwt now user) [
    | err x ↦ (err x, w)
    | ok access ↦
        let fresh = generate_refresh_token jwt f.store now user w.tokens in
        elim fresh.0 [
          | err x ↦ (err x, record w { tokens = fresh.1 })
          | ok refresh ↦ (
            ok (record { access_token = access; refresh_token = refresh }),
            record w { tokens = fresh.1 },
          )
        ]
  ]

  -- a code that matches: it is used up, and tokens are made
  unfoldable pub accept_code : TwoFaCode → CodeWorld → Result TokenResponse × CodeWorld
  unfolding update_code issue_tokens
  accept_code c w = elim f.used [
    | some text ↦ (err (plain text), w)
    | none ↦ issue_tokens c.user_id (record w { codes = update_code used c.id w.codes })
  ]

  -- the checks of the selected code
  unfoldable pub check_code : String → TwoFaCode → CodeWorld → Result TokenResponse × CodeWorld
  unfolding refuse_code accept_code
  check_code code c w =
      if c.is_used
      then (err (plain "code already used"), w)
      else if leb 3 c.attempts
      then (err (plain "too many attempts"), w)
      else if ltb c.expires_at now
      then (err (plain "code expires"), w)
      else if str_eq c.code code
      then accept_code c w
      else refuse_code c w

  -- `VerifyCode`
  unfoldable pub verify_code : String → String → CodeWorld → Result TokenResponse × CodeWorld
  unfolding count_verifications select_code check_code
  verify_code token code w = elim (jwt.verify now token) [
    | err x ↦ (err (plain "invalid temp token"), w)
    | ok user ↦ elim (count_verifications f.count (now - 10 * minute) user w.codes) [
      | err x ↦ (err x, w)
      | ok n ↦
          if leb 5 n
          then (err (plain "too many verification attempts, please try again later"), w)
          else elim (select_code f.select now user w.codes) [
            | err x ↦ (err (plain "invalid temp token or code not found"), w)
            | ok c ↦ check_code code c w
          ]
    ]
  ]
