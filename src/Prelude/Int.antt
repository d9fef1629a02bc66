-- ===== src/Prelude/Int.antt =====
-- Signed integers, for counters that may pass below zero.
use Prim.Native.Nat.{ℕ, zero, suc}
use mathlib.Core.Bool.{Bool, true, false}

-- `negsuc n` is -(n + 1).
pub data ℤ : Type 0 where
  pos : ℕ → ℤ
  negsuc : ℕ → ℤ

-- `++n` and `--n` on an `int`, away from the ends of its range.
abbrev pub increment : ℤ → ℤ
increment (pos n) = pos (suc n)
increment (negsuc zero) = pos 0
increment (negsuc (suc n)) = negsuc n

abbrev pub decrement : ℤ → ℤ
decrement (pos zero) = negsuc 0
decrement (pos (suc n)) = pos n
decrement (negsuc n) = negsuc (suc n)

abbrev pub is_zero : ℤ → Bool
is_zero (pos zero) = true
is_zero (pos (suc n)) = false
is_zero (negsuc n) = false

-- `1 < n`.
abbrev pub is_above_one : ℤ → Bool
is_above_one (pos zero) = false
is_above_one (pos (suc zero)) = false
is_above_one (pos (suc (suc n))) = true
is_above_one (negsuc n) = false
