-- ===== src/Base/Ints.antt =====
-- Signed integers over the native numbers; `negsuc n` is -(n + 1).
use Prim.Native.Nat.{ℕ, zero, suc}
use mathlib.Core.Bool.{Bool, true, false}

pub data ℤ : Type 0 where
  pos : ℕ → ℤ
  negsuc : ℕ → ℤ

-- `x > 0 ? x - 1 : x`, and `x != 0`.
abbrev pub dec_pos : ℤ → ℤ
dec_pos (pos zero) = pos zero
dec_pos (pos (suc n)) = pos n
dec_pos (negsuc n) = negsuc n

abbrev pub is_nonzero : ℤ → Bool
is_nonzero (pos zero) = false
is_nonzero (pos (suc n)) = true
is_nonzero (negsuc n) = true
