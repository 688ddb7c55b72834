-- ===== src/Prelude/Int.antt =====
-- Go's signed 64-bit integers where the sign matters; `negsuc n` is -(n + 1).
use krampus.Prelude.Tests.{ltb, leb}
use Prim.Native.Nat.{ℕ}
use mathlib.Core.Bool.{Bool, true, false}

pub data ℤ : Type 0 where
  pos : ℕ → ℤ
  negsuc : ℕ → ℤ

-- `a <= 0`
abbrev pub is_non_positive : ℤ → Bool
is_non_positive (pos n) = leb n 0
is_non_positive (negsuc n) = true

-- `a == 0`
abbrev pub is_zero : ℤ → Bool
is_zero (pos n) = leb n 0
is_zero (negsuc n) = false

-- `a > b` at a bound that is not negative
abbrev pub is_above : ℤ → ℕ → Bool
is_above (pos n) b = ltb b n
is_above (negsuc n) b = false
