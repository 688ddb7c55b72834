-- ===== src/Accounts/Login/Guarded.antt =====
-- What a login that answers with tokens has checked.
use krampus.Prelude.{
  ℕ, ◌+◌, ◌<◌, ◌≤◌, ◌⊎◌, List, Option-cases, String, true, false, Option, none, some, ◌≡◌, refl, ap,
  ◌∙◌, inl, inr, Bool-cases, leb, ◌||◌, str_eq, arith,
}
use krampus.Domain.Errors.{ok, Result-cases}
use krampus.Storage.Fault.{Fault}
use krampus.Accounts.{Account, AccountWorld, TokenResponse, Jwt, PasswordLib}
use krampus.Accounts.Attempts.{get_failed_attempts, find_by_email, selected, is_user_blocked}
use krampus.Accounts.Tokens.{
  refresh_time, find_token, generate_access_token, generate_temp_token, generate_refresh_token,
}
use krampus.Accounts.Tokens.Rows.{generate_refresh_token-find_token}
use krampus.Accounts.Login.{
  logged_in, LoginFaults, LoginRequest, open_session, after_password, user_login,
}

pub selected-some :
    (f : Fault) (r : Option Account) (a : Account) → selected f r ≡ ok a → r ≡ some a
unfolding selected
selected-some (some x) r a h = absurd (let q = h in cc)
selected-some none none a h = absurd (let q = h in cc)
selected-some none (some b) a h = cc

module _ (lib : PasswordLib) (jwt : Jwt) (format_int : ℕ → String) (f : LoginFaults) (now : ℕ) where
  -- The refresh token of an answer is in the table, for the account, for seven days.
  abbrev pub HasToken : Account → TokenResponse → AccountWorld → Type 0
  HasToken a t w =
      find_token t.refresh_token w.tokens
      ≡ some
          (record { user_id = a.user.id; token = t.refresh_token; expires_at = now + refresh_time })

  open_session-HasToken :
      (a : Account) (req : LoginRequest) (w : AccountWorld) (t : TokenResponse)
      → (open_session lib jwt format_int f now a req w).0 ≡ ok (logged_in t)
      → HasToken a t (open_session lib jwt format_int f now a req w).1
  unfolding open_session
  open_session-HasToken a req w t = elim (Result-cases (generate_access_token jwt now a.user.id)) [
    | inl (x, c) ↦ rw (c, open_session) (λ h. absurd (let q = h in cc))
    | inr (access, c) ↦
        elim (Result-cases (generate_refresh_token jwt f.store now a.user.id w.tokens).0) [
          | inl (x, e) ↦ simp (c, e, open_session) (λ h. absurd (let q = h in cc))
          | inr (refresh, e) ↦
              simp (c, e, open_session)
                (λ h.
                  let same : refresh ≡ t.refresh_token = cc in
                  generate_refresh_token-find_token jwt f.store now a.user.id w.tokens
                    t.refresh_token (e ∙ ap ok same))
        ]
  ]

  -- Fewer than five failed attempts of the last minute.
  abbrev pub HasFewFailures : LoginRequest → AccountWorld → Type 0
  HasFewFailures req w =
      (n : ℕ) × (get_failed_attempts f.count now req.email w.attempts ≡ ok n) × (n < 5)

  after_password-HasToken :
      (a : Account) (req : LoginRequest) (w : AccountWorld) (t : TokenResponse)
      → (after_password lib jwt format_int f now a req w).0 ≡ ok (logged_in t)
      → HasFewFailures req w
        × (a.user.two_fa_enabled ≡ false)
        × HasToken a t (after_password lib jwt format_int f now a req w).1
  unfolding after_password
  after_password-HasToken a req w t =
      elim (Result-cases (get_failed_attempts f.count now req.email w.attempts)) [
        | inl (x, c) ↦ rw (c, after_password) (λ h. absurd (let q = h in cc))
        | inr (n, c) ↦ elim (Bool-cases (leb 5 n)) [
          | inl d ↦ simp (c, d, after_password) (λ h. absurd (let q = h in cc))
          | inr d ↦ elim (Bool-cases a.user.two_fa_enabled) [
            | inr e ↦
                simp (c, d, e, after_password)
                  (λ h. ((n, refl, ground (arith, d)), refl, open_session-HasToken a req w t h))
            | inl e ↦ elim (Result-cases (generate_temp_token jwt now a.user.id)) [
              | inl (x, g) ↦ simp (c, d, e, g, after_password) (λ h. absurd (let q = h in cc))
              | inr (x, g) ↦ simp (c, d, e, g, after_password) (λ h. absurd (let q = h in cc))
            ]
          ]
        ]
      ]

  -- The query for the block failed, or the account has no block that ends later than now.
  abbrev pub IsAdmitted : Account → Type 0
  IsAdmitted a =
      ((text : String) × (f.status ≡ some text)) ⊎ ((t : ℕ) → a.blocked_until ≡ some t → t ≤ now)

  is_user_blocked-IsAdmitted :
      (email : String) (users : List Account) (a : Account)
      → find_by_email email users ≡ some a
      → (is_user_blocked f.status now email users).0 ≡ false
      → IsAdmitted a
  unfolding is_user_blocked
  is_user_blocked-IsAdmitted email users a e = elim (Option-cases f.status) [
    | inr (text, s) ↦ λ h. inl (text, s)
    | inl s ↦ elim (Option-cases a.blocked_until) [
      | inl b ↦ λ h. inr (λ t q. absurd (let z = q in cc))
      | inr (u, b) ↦ simp (s, e, b, is_user_blocked) (λ h. inr (λ t q. ground (arith, h, q)))
    ]
  ]

  -- A login that answers with tokens found an account with the e-mail whose password matched, with fewer
  -- than five failed attempts in the last minute and without a second factor; the account had no block
  -- that ends later than now, unless the query for the block failed; and its refresh token is in the
  -- table for that account, for seven days.
  pub user_login-HasToken :
      (req : LoginRequest) (w : AccountWorld) (t : TokenResponse)
      → (user_login lib jwt format_int f now req w).0 ≡ ok (logged_in t)
      → (a : Account) × (find_by_email req.email w.users ≡ some a)
        × IsAdmitted a
        × (lib.matches a.user.password_hash req.password ≡ true)
        × HasFewFailures req w
        × (a.user.two_fa_enabled ≡ false)
        × HasToken a t (user_login lib jwt format_int f now req w).1
  unfolding user_login selected
  user_login-HasToken req w t = elim (Bool-cases (str_eq req.email "" || str_eq req.password "")) [
    | inl b ↦ rw (b, user_login) (λ h. absurd (let q = h in cc))
    | inr b ↦ elim (Bool-cases (is_user_blocked f.status now req.email w.users).0) [
      | inl c ↦ simp (b, c, user_login) (λ h. absurd (let q = h in cc))
      | inr c ↦ elim (Result-cases (selected f.select (find_by_email req.email w.users))) [
        | inl (x, d) ↦ simp (b, c, d, user_login) (λ h. absurd (let q = h in cc))
        | inr (a, d) ↦ elim (Bool-cases (lib.matches a.user.password_hash req.password)) [
          | inr m ↦ simp (b, c, d, m, user_login) (λ h. absurd (let q = h in cc))
          | inl m ↦
              simp (b, c, d, m, user_login)
                (λ h.
                  let done = after_password-HasToken a req w t h in
                  (
                    a,
                    selected-some f.select _ a d,
                    is_user_blocked-IsAdmitted req.email w.users a (selected-some f.select _ a d) c,
                    m,
                    done.0,
                    done.1,
                    done.2,
                  ))
        ]
      ]
    ]
  ]
