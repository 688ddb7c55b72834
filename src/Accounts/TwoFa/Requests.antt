-- ===== src/Accounts/TwoFa/Requests.antt =====
-- How often a code can be asked for.
use krampus.Prelude.{
  ℕ, suc, ◌-◌, ◌*◌, ◌<◌, ◌≤◌, String, Bool, false, List, [], ◌∷◌, ◌++◌, ◌≡◌, refl, inl, inr,
  Bool-cases, Option-cases, leb, arith, filter, length,
}
use krampus.Domain.Errors.{ok, Result-cases}
use krampus.Domain.Message.{minute}
use krampus.Storage.Fault.{query_ok}
use krampus.Accounts.{Jwt}
use krampus.Accounts.TwoFa.{
  TwoFaCode, CodeWorld, SendCall, is_request, count_requests, temp_user, send_email_code,
}

length-filter_last :
    (p : TwoFaCode → Bool) (c : TwoFaCode) (codes : List TwoFaCode)
    → length (filter p (codes ++ c ∷ [])) ≤ suc (length (filter p codes))
length-filter_last p c [] = ground arith
length-filter_last p c (d ∷ codes) = ground (arith, length-filter_last p c codes)

at_most_three :
    (p : TwoFaCode → Bool) (c : TwoFaCode) (codes : List TwoFaCode) (n : ℕ)
    → length (filter p codes) ≡ n
    → leb 3 n ≡ false
    → length (filter p (codes ++ c ∷ [])) ≤ 3
at_most_three p c codes n e b =
    let few : n < 3 = ground (arith, b) in omega (arith, e, few, length-filter_last p c codes)

-- When a code is sent, the user of the temporary token has at most three codes of the last fifteen
-- minutes, the new one included.
pub send_email_code-requests :
    (jwt : Jwt) (format_six : ℕ → String) (a : SendCall) (token : String) (w : CodeWorld)
    → (send_email_code jwt format_six a token w).0 ≡ ok tt
    → (user : ℕ) × ((temp_user jwt a token w.temps).0 ≡ ok user)
      × (length (
            filter
              (is_request (a.now - 15 * minute) user)
              (send_email_code jwt format_six a token w).1.codes)
          ≤ 3)
unfolding send_email_code count_requests
send_email_code-requests jwt format_six a token w =
    elim (Result-cases (temp_user jwt a token w.temps).0) [
      | inl (x, v) ↦ simp (v, send_email_code) (λ h. absurd (let q = h in cc))
      | inr (user, v) ↦
          elim (Result-cases (count_requests a.count (a.now - 15 * minute) user w.codes)) [
            | inl (x, n) ↦ simp (v, n, send_email_code) (λ h. absurd (let q = h in cc))
            | inr (n, m) ↦ elim (Bool-cases (leb 3 n)) [
              | inl b ↦ simp (v, m, b, send_email_code) (λ h. absurd (let q = h in cc))
              | inr b ↦ elim (Option-cases a.insert) [
                | inr (x, e) ↦ simp (v, m, b, e, send_email_code) (λ h. absurd (let q = h in cc))
                | inl e ↦
                    simp (v, m, b, e, send_email_code)
                      (λ h. (user, refl, at_most_three _ _ w.codes n (query_ok a.count _ n m) b))
              ]
            ]
          ]
    ]
