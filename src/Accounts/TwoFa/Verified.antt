-- ===== src/Accounts/TwoFa/Verified.antt =====
-- What an accepted code has gone through.
use krampus.Prelude.{
  ℕ, ◌+◌, ◌-◌, ◌*◌, ◌<◌, ◌≤◌, String, true, false, some, List, [], ◌∷◌, ◌≡◌, refl, ap, subst, ◌∙◌,
  inl, inr, Bool-cases, Option-cases, str_eq, leb, ltb, eq_iff, arith, In,
}
use krampus.Domain.Errors.{ok, Result-cases}
use krampus.Domain.Message.{minute}
use krampus.Accounts.{TokenResponse, Jwt}
use krampus.Accounts.Tokens.{
  refresh_time, find_token, generate_access_token, generate_refresh_token,
}
use krampus.Accounts.Tokens.Rows.{generate_refresh_token-find_token}
use krampus.Accounts.TwoFa.{
  TwoFaCode, CodeWorld, VerifyFaults, count_verifications, select_code, update_code, used,
  refuse_code, issue_tokens, accept_code, check_code, verify_code,
}

-- Every row with the id is used.
abbrev pub IsUsedUp : ℕ → CodeWorld → Type 0
IsUsedUp id w = (d : TwoFaCode) → In d w.codes → d.id ≡ id → d.is_used ≡ true

update_code-used :
    (id : ℕ) (codes : List TwoFaCode) (d : TwoFaCode)
    → In d (update_code used id codes)
    → d.id ≡ id
    → d.is_used ≡ true
unfolding update_code
update_code-used id [] d h e = absurd h
update_code-used id (c ∷ codes) d (inl h) e =
    ground (arith, ap (λ x. x.id) h, ap (λ x. x.is_used) h)
update_code-used id (c ∷ codes) d (inr h) e = update_code-used id codes d h e

module _ (jwt : Jwt) (format_int : ℕ → String) (f : VerifyFaults) (now : ℕ) where
  -- The refresh token of the answer is in the table, for the user of the code; and the code is used up.
  abbrev pub IsExchanged : TwoFaCode → TokenResponse → CodeWorld → Type 0
  IsExchanged c t w =
      IsUsedUp c.id w
      × (find_token t.refresh_token w.tokens
          ≡ some (record {
            user_id = c.user_id;
            token = t.refresh_token;
            expires_at = now + refresh_time;
          }))

  issue_tokens-find_token :
      (user : ℕ) (w : CodeWorld) (t : TokenResponse)
      → (issue_tokens jwt format_int f now user w).0 ≡ ok t
      → ((issue_tokens jwt format_int f now user w).1.codes ≡ w.codes)
        × (find_token t.refresh_token (issue_tokens jwt format_int f now user w).1.tokens
            ≡ some (record {
              user_id = user;
              token = t.refresh_token;
              expires_at = now + refresh_time;
            }))
  unfolding issue_tokens
  issue_tokens-find_token user w t = elim (Result-cases (generate_access_token jwt now user)) [
    | inl (x, g) ↦ rw (g, issue_tokens) (λ h. absurd (let q = h in cc))
    | inr (access, g) ↦
        elim (Result-cases (generate_refresh_token jwt f.store now user w.tokens).0) [
          | inl (x, e) ↦ simp (g, e, issue_tokens) (λ h. absurd (let q = h in cc))
          | inr (refresh, e) ↦
              simp (g, e, issue_tokens)
                (λ h.
                  let same : refresh ≡ t.refresh_token = cc in
                  (
                    refl,
                    generate_refresh_token-find_token jwt f.store now user w.tokens t.refresh_token
                        (e ∙ ap ok same),
                  ))
        ]
  ]

  accept_code-IsExchanged :
      (c : TwoFaCode) (w : CodeWorld) (t : TokenResponse)
      → (accept_code jwt format_int f now c w).0 ≡ ok t
      → IsExchanged c t (accept_code jwt format_int f now c w).1
  unfolding accept_code
  accept_code-IsExchanged c w t = elim (Option-cases f.used) [
    | inr (x, u) ↦ simp (u, accept_code) (λ h. absurd (let q = h in cc))
    | inl u ↦
        simp (u, accept_code)
          (λ h.
            let done = issue_tokens-find_token c.user_id _ t h in
            (λ d i. update_code-used c.id w.codes d (subst (In d) done.0 i), done.1))
  ]

  refuse_code_err :
      (c : TwoFaCode) (w : CodeWorld) (t : TokenResponse)
      → ¬ ((refuse_code jwt format_int f now c w).0 ≡ ok t)
  unfolding refuse_code
  refuse_code_err c w t = elim (Option-cases f.attempts) [
    | inr (x, u) ↦ simp (u, refuse_code) (λ h. let q = h in cc)
    | inl u ↦ simp (u, refuse_code) (λ h. let q = h in cc)
  ]

  check_code-IsExchanged :
      (c : TwoFaCode) (code : String) (w : CodeWorld) (t : TokenResponse)
      → (check_code jwt format_int f now code c w).0 ≡ ok t
      → (c.is_used ≡ false)
        × (c.attempts < 3)
        × (now ≤ c.expires_at)
        × (c.code ≡ code)
        × IsExchanged c t (check_code jwt format_int f now code c w).1
  unfolding check_code
  check_code-IsExchanged c code w t = elim (Bool-cases c.is_used) [
    | inl u ↦ rw (u, check_code) (λ h. absurd (let q = h in cc))
    | inr u ↦ elim (Bool-cases (leb 3 c.attempts)) [
      | inl a ↦ simp (u, a, check_code) (λ h. absurd (let q = h in cc))
      | inr a ↦ elim (Bool-cases (ltb c.expires_at now)) [
        | inl e ↦ simp (u, a, e, check_code) (λ h. absurd (let q = h in cc))
        | inr e ↦ elim (Bool-cases (str_eq c.code code)) [
          | inr s ↦ simp (u, a, e, s, check_code) (λ h. absurd (refuse_code_err c w t h))
          | inl s ↦
              simp (u, a, e, s, check_code)
                (λ h.
                  let done = accept_code-IsExchanged c w t h in
                  (
                    refl,
                    ground (arith, a),
                    ground (arith, e),
                    ground (arith, s, eq_iff c.code code),
                    done,
                  ))
        ]
      ]
    ]
  ]

  -- `VerifyCode` answers with tokens only for the newest open code of the user of the temporary token,
  -- unused, not expired, with fewer than three wrong guesses and equal to the text given, when fewer
  -- than five of the user's codes of the last ten minutes were guessed at; the code is then used up and
  -- the refresh token is in the table for its user, for seven days.
  pub verify_code-IsExchanged :
      (token code : String) (w : CodeWorld) (t : TokenResponse)
      → (verify_code jwt format_int f now token code w).0 ≡ ok t
      → (user : ℕ) × (c : TwoFaCode) × (jwt.verify now token ≡ ok user)
        × ((n : ℕ) × (count_verifications f.count (now - 10 * minute) user w.codes ≡ ok n)
            × (n < 5))
        × (select_code f.select now user w.codes ≡ ok c)
        × (c.is_used ≡ false)
        × (c.attempts < 3)
        × (now ≤ c.expires_at)
        × (c.code ≡ code)
        × IsExchanged c t (verify_code jwt format_int f now token code w).1
  unfolding verify_code
  verify_code-IsExchanged token code w t = elim (Result-cases (jwt.verify now token)) [
    | inl (x, v) ↦ rw (v, verify_code) (λ h. absurd (let q = h in cc))
    | inr (user, v) ↦
        elim (Result-cases (count_verifications f.count (now - 10 * minute) user w.codes)) [
          | inl (x, n) ↦ simp (v, n, verify_code) (λ h. absurd (let q = h in cc))
          | inr (n, m) ↦ elim (Bool-cases (leb 5 n)) [
            | inl b ↦ simp (v, m, b, verify_code) (λ h. absurd (let q = h in cc))
            | inr b ↦ elim (Result-cases (select_code f.select now user w.codes)) [
              | inl (x, s) ↦ simp (v, m, b, s, verify_code) (λ h. absurd (let q = h in cc))
              | inr (c, s) ↦
                  simp (v, m, b, s, verify_code)
                    (λ h.
                      let done = check_code-IsExchanged c code w t h in
                      (
                        user,
                        c,
                        refl,
                        (n, m, ground (arith, b)),
                        s,
                        done.0,
                        done.1,
                        done.2,
                        done.3,
                        done.4,
                      ))
            ]
          ]
        ]
  ]
