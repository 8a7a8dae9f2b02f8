-- ===== src/Js/Integer.antt =====
-- Whole numbers among the values of type `number`.
use facturify.Base.{
  ℕ, suc, ◌+◌, ◌-◌, ◌/◌, ◌%◌, Bool, true, false, not, Option, none, some, ltb, ◌==◌, if◌then◌else◌,
}
use facturify.Js.Number.{Num, frac, neg_frac}
use facturify.Js.Value.{Value, number}

-- `negsuc n` is -(n + 1).
pub data ℤ : Type 0 where
  pos negsuc : ℕ → ℤ

-- The whole number that passes `Number.isInteger`.
unfoldable pub integer_of_num : Num → Option ℤ
integer_of_num (frac n d) = if n % suc d == 0 then some (pos (n / suc d)) else none
integer_of_num (neg_frac n d) =
    if suc n % suc d == 0 then some (negsuc (suc n / suc d - 1)) else none
integer_of_num _ = none

unfoldable pub integer_of : Value → Option ℤ
unfolding integer_of_num
integer_of (number x) = integer_of_num x
integer_of _ = none

-- `z + n`
unfoldable pub plus_ℕ : ℤ → ℕ → ℤ
plus_ℕ (pos m) n = pos (m + n)
plus_ℕ (negsuc m) n = if ltb m n then pos (n - suc m) else negsuc (m - n)

-- `y < z`
unfoldable pub lt_ℤ : ℤ → ℤ → Bool
lt_ℤ (pos m) (pos n) = ltb m n
lt_ℤ (pos m) (negsuc n) = false
lt_ℤ (negsuc m) (pos n) = true
lt_ℤ (negsuc m) (negsuc n) = ltb n m

-- `y <= z`
unfoldable pub le_ℤ : ℤ → ℤ → Bool
unfolding lt_ℤ
le_ℤ y z = not (lt_ℤ z y)
