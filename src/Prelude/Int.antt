-- ===== src/Prelude/Int.antt =====
-- Go's signed integers, as far as the program compares them with zero and with one another.
use Prim.Native.Nat.{ℕ, suc}
use mathlib.Core.Bool.{Bool}
use openpreflight.Prelude.Tests.{ltb}

-- `negsuc n` is -(n + 1).
pub data ℤ : Type 0 where
  pos : ℕ → ℤ
  negsuc : ℕ → ℤ

abbrev pub pos_part : ℤ → ℕ
pos_part (pos n) = n
pos_part (negsuc n) = 0

abbrev pub neg_part : ℤ → ℕ
neg_part (pos n) = 0
neg_part (negsuc n) = suc n

-- `0 < z`, which is also the test that the positive part is not zero.
abbrev pub is_positive : ℤ → Bool
is_positive z = ltb 0 (pos_part z)
