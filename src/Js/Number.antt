-- ===== src/Js/Number.antt =====
-- A `number`: every finite double is `n / 2 ^ k` for an integer `n`. Negative zero is not told
-- apart from zero.
use voxeltoad.Common.{
  ℕ, zero, suc, ◌^◌, ◌*◌, ◌-◌, ◌%◌, Bool, true, false, not, ◌&&◌, ◌||◌, ◌+◌, leb, ltb, ◌==◌,
}
use voxeltoad.Common.Int.{ℤ, pos, negsuc, pos_part, neg_part, ◌*ℤ◌, ltb_ℤ}

pub data Number : Type 0 where
  nan : Number
  -- `true` for -Infinity
  infinite : Bool → Number
  -- `finite n k` is n / 2 ^ k
  finite : ℤ → ℕ → Number

abbrev pub int : ℤ → Number
int n = finite n 0

abbrev pub negate_ℤ : ℤ → ℤ
negate_ℤ (pos zero) = pos 0
negate_ℤ (pos (suc n)) = negsuc n
negate_ℤ (negsuc n) = pos (suc n)

-- `-x`
unfoldable pub negate : Number → Number
negate nan = nan
negate (infinite b) = infinite (not b)
negate (finite n k) = finite (negate_ℤ n) k

-- `if (x)`: false for NaN and zero
unfoldable pub truthy : Number → Bool
truthy nan = false
truthy (infinite b) = true
truthy (finite (pos n) k) = not (n == 0)
truthy (finite (negsuc n) k) = true

-- `x > 0`
unfoldable pub is_positive : Number → Bool
is_positive nan = false
is_positive (infinite b) = not b
is_positive (finite (pos n) k) = ltb 0 n
is_positive (finite (negsuc n) k) = false

-- `x <= 0`, which is not the negation of `x > 0` at NaN
unfoldable pub le_zero : Number → Bool
le_zero nan = false
le_zero (infinite b) = b
le_zero (finite (pos n) k) = n == 0
le_zero (finite (negsuc n) k) = true

unfoldable pub is_nan : Number → Bool
is_nan nan = true
is_nan (infinite b) = false
is_nan (finite n k) = false

-- 2 ^ 53 - 1
abbrev pub max_safe : ℕ
max_safe = 2 ^ 53 - 1

abbrev pub magnitude : ℤ → ℕ
magnitude (pos n) = n
magnitude (negsuc n) = suc n

-- `Number.isSafeInteger(x)`: an integer of magnitude at most 2 ^ 53 - 1. The value n / 2 ^ k is an
-- integer if 2 ^ k divides n.
unfoldable pub is_safe_integer : Number → Bool
is_safe_integer nan = false
is_safe_integer (infinite b) = false
is_safe_integer (finite n k) = magnitude n % 2 ^ k == 0 && leb (magnitude n) (max_safe * 2 ^ k)

-- `n / 2 ^ k` over the denominator `2 ^ (k + j)`
abbrev scaled : ℤ → ℕ → ℤ
scaled n j = n *ℤ pos (2 ^ j)

abbrev eq_ℤ : ℤ → ℤ → Bool
eq_ℤ a b = pos_part a + neg_part b == pos_part b + neg_part a

-- The equality of the keys of a `Map`.
unfoldable pub same_key : Number → Number → Bool
unfolding ◌*ℤ◌
same_key nan nan = true
same_key (infinite a) (infinite b) = (a && b) || (not a && not b)
same_key (finite n k) (finite m j) = eq_ℤ (scaled n j) (scaled m k)
same_key _ _ = false

-- `a < b`, which is also `a - b < 0`
unfoldable pub is_less : Number → Number → Bool
unfolding ◌*ℤ◌
is_less (infinite a) (infinite b) = a && not b
is_less (infinite a) (finite m j) = a
is_less (finite n k) (infinite b) = not b
is_less (finite n k) (finite m j) = ltb_ℤ (scaled n j) (scaled m k)
is_less _ _ = false
