-- ===== src/Base/Int.antt =====
-- Python's signed integers where an argument may be negative. `negsuc n` is -(n + 1).
use Prim.Native.Nat.{ℕ}
use mathlib.Core.Bool.{Bool, true, false}
use office_mult_agent.Base.Tests.{leb, ltb}

pub data ℤ : Type 0 where
  pos : ℕ → ℤ
  negsuc : ℕ → ℤ

-- `max(0, a)`
abbrev pub max_zero : ℤ → ℕ
max_zero (pos n) = n
max_zero (negsuc n) = 0

-- `a < n`
abbrev pub lt_ℕ : ℤ → ℕ → Bool
lt_ℕ (pos m) n = ltb m n
lt_ℕ (negsuc m) n = true

-- `0 <= a <= n`
abbrev pub in_range : ℤ → ℕ → Bool
in_range (pos m) n = leb m n
in_range (negsuc m) n = false
