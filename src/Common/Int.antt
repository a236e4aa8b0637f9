-- ===== src/Common/Int.antt =====
-- The C integers that a comparison returns, and signed readings of bit patterns.
use Prim.Native.Nat.{ℕ, suc, ◌+◌, ◌-◌, ◌*◌}
use mathlib.Core.Bool.{Bool, true, false}
use yacdb.Common.Tests.{ltb, if◌then◌else◌}

-- `negsuc n` is -(n + 1).
pub data ℤ : Type 0 where
  pos : ℕ → ℤ
  negsuc : ℕ → ℤ

abbrev pub pos_part : ℤ → ℕ
pos_part (pos n) = n
pos_part (negsuc n) = 0

abbrev pub neg_part : ℤ → ℕ
neg_part (pos n) = 0
neg_part (negsuc n) = suc n

abbrev pub ltb_ℤ : ℤ → ℤ → Bool
ltb_ℤ a b = ltb (pos_part a + neg_part b) (pos_part b + neg_part a)

abbrev pub neg : ℤ → ℤ
neg a = if ltb 0 (pos_part a) then negsuc (pos_part a - 1) else pos (neg_part a)

-- The two's complement reading of a pattern below `2 * half`.
abbrev pub signed : ℕ → ℕ → ℤ
signed half v = if ltb v half then pos v else negsuc (2 * half - v - 1)

-- `(a > b) - (a < b)`.
abbrev pub difference : Bool → Bool → ℤ
difference true true = pos 0
difference true false = pos 1
difference false true = negsuc 0
difference false false = pos 0

abbrev pub compare_ℤ : ℤ → ℤ → ℤ
compare_ℤ a b = difference (ltb_ℤ b a) (ltb_ℤ a b)
