-- ===== src/Prelude/Int.antt =====
-- Signed integers over the native numbers; `negsuc n` is -(n + 1).
use Prim.Native.Nat.{ℕ, suc, ◌+◌, ◌%◌, ◌≤◌, ◌^◌}
use mathlib.Core.Bool.{Bool}
use regula.Prelude.Tests.{ltb, leb}

pub data ℤ : Type 0 where
  pos : ℕ → ℤ
  negsuc : ℕ → ℤ

abbrev pub pos_part : ℤ → ℕ
pos_part (pos n) = n
pos_part (negsuc n) = 0

abbrev pub neg_part : ℤ → ℕ
neg_part (pos n) = 0
neg_part (negsuc n) = suc n

-- -n for a number n.
abbrev pub neg_ℕ : ℕ → ℤ
neg_ℕ ℕ.zero = pos 0
neg_ℕ (suc n) = negsuc n

-- The orders of int64.
abbrev pub leb_ℤ : ℤ → ℤ → Bool
leb_ℤ a b = leb (pos_part a + neg_part b) (pos_part b + neg_part a)

abbrev pub ltb_ℤ : ℤ → ℤ → Bool
ltb_ℤ a b = ltb (pos_part a + neg_part b) (pos_part b + neg_part a)

-- Go's `%`: the sign of the result is that of the dividend.
unfoldable pub rem : ℤ → ℕ → ℤ
rem (pos n) m = pos (n % m)
rem (negsuc n) m = neg_ℕ (suc n % m)

-- The range of int64.
abbrev pub InInt64 : ℤ → Type 0
InInt64 (pos n) = suc n ≤ 2 ^ 63
InInt64 (negsuc n) = suc n ≤ 2 ^ 63
