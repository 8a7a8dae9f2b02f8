-- ===== src/Js/Number.antt =====
-- The values of type `number`: exact rationals, the infinities and NaN. The rounding of a double
-- and the sign of zero are left out.
use facturify.Base.{
  ℕ, suc, ◌+◌, ◌-◌, ◌*◌, ◌/◌, ◌%◌, Bool, true, false, not, ltb, ◌==◌, if◌then◌else◌,
}

-- `frac n d` is n / (d + 1), and `neg_frac n d` is -(n + 1) / (d + 1).
pub data Num : Type 0 where
  nan infinity neg_infinity : Num
  frac : ℕ → ℕ → Num
  neg_frac : ℕ → ℕ → Num

abbrev pub of_ℕ : ℕ → Num
of_ℕ n = frac n 0

-- `Number.isFinite`
unfoldable pub is_finite : Num → Bool
is_finite nan = false
is_finite infinity = false
is_finite neg_infinity = false
is_finite _ = true

-- `Number.isInteger`
unfoldable pub is_integer : Num → Bool
is_integer (frac n d) = n % suc d == 0
is_integer (neg_frac n d) = suc n % suc d == 0
is_integer _ = false

-- `x < y`; every comparison with NaN is false.
unfoldable pub lt_num : Num → Num → Bool
lt_num nan _ = false
lt_num infinity _ = false
lt_num neg_infinity nan = false
lt_num neg_infinity neg_infinity = false
lt_num neg_infinity _ = true
lt_num (frac n d) nan = false
lt_num (frac n d) infinity = true
lt_num (frac n d) neg_infinity = false
lt_num (frac n d) (frac m e) = ltb (n * suc e) (m * suc d)
lt_num (frac n d) (neg_frac m e) = false
lt_num (neg_frac n d) nan = false
lt_num (neg_frac n d) infinity = true
lt_num (neg_frac n d) neg_infinity = false
lt_num (neg_frac n d) (frac m e) = true
lt_num (neg_frac n d) (neg_frac m e) = ltb (suc m * suc d) (suc n * suc e)

-- `x <= y`
unfoldable pub le_num : Num → Num → Bool
unfolding lt_num
le_num nan _ = false
le_num _ nan = false
le_num x y = not (lt_num y x)

-- `Math.min` of two numbers that are not NaN.
unfoldable pub min_num : Num → Num → Num
unfolding lt_num
min_num x y = if lt_num y x then y else x

-- `Math.max` of two numbers that are not NaN.
unfoldable pub max_num : Num → Num → Num
unfolding lt_num
max_num x y = if lt_num x y then y else x

-- `Math.floor` of a number that is at least 0, and of one below 0 cut off at 0.
unfoldable pub floor_ℕ : Num → ℕ
floor_ℕ (frac n d) = n / suc d
floor_ℕ _ = 0

-- `Math.round` likewise: halves go up.
unfoldable pub round_ℕ : Num → ℕ
round_ℕ (frac n d) = (2 * n + suc d) / (2 * suc d)
round_ℕ _ = 0

-- `x * k` for a whole number k above 0.
unfoldable pub times_ℕ : Num → ℕ → Num
times_ℕ (frac n d) k = frac (n * k) d
times_ℕ (neg_frac n d) k = neg_frac (suc n * k - 1) d
times_ℕ x k = x
