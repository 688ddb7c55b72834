-- ===== src/Files/Quota.antt =====
-- When the quota lets an upload through.
use krampus.Prelude.{ℕ, ◌+◌, ◌^◌, ◌%◌, ◌≤◌, ◌<◌, none, ◌≡◌, ◌↔◌, ◌⊎◌, arith}
use krampus.Domain.Errors.{ok}
use krampus.Files.{check_quota}

-- For numbers of 63 bits, `Check` lets a size through exactly when it fits under the maximum or when the
-- sum overflows.
pub check_quota_iff :
    (used size max : ℕ)
    → used < 2 ^ 63
    → size < 2 ^ 63
    → max < 2 ^ 63
    → (check_quota (ok (used, max)) size ≡ none) ↔ ((used + size ≤ max) ⊎ (2 ^ 63 ≤ used + size))
unfolding check_quota
check_quota_iff used size max u s m =
    let exact : (used + size) % 2 ^ 64 ≡ used + size = omega (arith, u, s) in
    rw (exact, check_quota) (ground (arith, u, s, m))
