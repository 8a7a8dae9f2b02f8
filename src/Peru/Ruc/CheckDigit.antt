-- ===== src/Peru/Ruc/CheckDigit.antt =====
-- The check digit of a RUC, and what it detects.
use facturify.Base.{
  ℕ, ◌+◌, ◌*◌, ◌%◌, ◌≤◌, ◌<◌, ◌≡◌, ◌≢◌, List, [], ◌∷◌, ◌++◌, length, All, ◌⊎◌, inl, inr, arith, ◌↔◌,
}
use facturify.Js.Text.{Text}
use facturify.Peru.Ruc.{digit_value, weighted_sum, expected_check_digit}

-- What the digit stands for: it completes the sum to a multiple of 11, but with a remainder of 0
-- or 1 it is the other of 0 and 1.
abbrev pub Completes : ℕ → ℕ → Type 0
Completes sum digit =
    ((sum % 11 ≤ 1) × (digit + sum % 11 ≡ 1))
    ⊎ ((2 ≤ sum % 11) × (digit ≤ 9) × ((sum + digit) % 11 ≡ 0))

pub expected-Completes : (sum digit : ℕ) → (digit ≡ expected_check_digit sum) ↔ Completes sum digit
unfolding expected_check_digit
expected-Completes sum digit = ground arith

pub expected-lt : (sum : ℕ) → expected_check_digit sum < 10
unfolding expected_check_digit
expected-lt sum = ground arith

-- A sum with one digit changed.
pub record Shifted (f c d m n : ℕ) : Type 0 where
  base : ℕ
  low : 2 ≤ f
  high : f ≤ 7
  before : m ≡ base + c * f
  after : n ≡ base + d * f

abbrev pub Factors : List ℕ → Type 0
Factors = All (λ f. (2 ≤ f) × (f ≤ 7))

pub weighted_sum-Shifted :
    (fs : List ℕ) (a b : Text) (c d : ℕ)
    → Factors fs
    → length a < length fs
    → (f : ℕ) × Shifted f
        (digit_value c)
        (digit_value d)
        (weighted_sum fs (a ++ (c ∷ b)))
        (weighted_sum fs (a ++ (d ∷ b)))
unfolding weighted_sum
weighted_sum-Shifted [] a b c d h k = absurd (omega (arith, k))
weighted_sum-Shifted (f ∷ fs) [] b c d (in_range, h) k = (
  f,
  record {
    base = weighted_sum fs b;
    low = in_range.0;
    high = in_range.1;
    before = omega arith;
    after = omega arith;
  },
)
weighted_sum-Shifted (f ∷ fs) (x ∷ a) b c d (in_range, h) k =
    let (g, s) = weighted_sum-Shifted fs a b c d h (omega (arith, k)) in
    (
      g,
      record {
        base = digit_value x * f + s.base;
        low = s.low;
        high = s.high;
        before = omega (arith, s.before);
        after = omega (arith, s.after);
      },
    )

factor-cases :
    (f : ℕ) → 2 ≤ f → f ≤ 7 → (f ≡ 2) ⊎ ((f ≡ 3) ⊎ ((f ≡ 4) ⊎ ((f ≡ 5) ⊎ ((f ≡ 6) ⊎ (f ≡ 7)))))
factor-cases f h k = ground arith

-- The remainder of a sum tells its digits apart.
no-collision :
    (f c d b : ℕ) → 2 ≤ f → f ≤ 7 → c < 10 → d < 10 → c ≢ d → (b + c * f) % 11 ≢ (b + d * f) % 11
no-collision f c d b low high h k different = elim (factor-cases f low high) [
  | inl e ↦ rw e (omega (arith, h, k, different))
  | inr (inl e) ↦ rw e (omega (arith, h, k, different))
  | inr (inr (inl e)) ↦ rw e (omega (arith, h, k, different))
  | inr (inr (inr (inl e))) ↦ rw e (omega (arith, h, k, different))
  | inr (inr (inr (inr (inl e)))) ↦ rw e (omega (arith, h, k, different))
  | inr (inr (inr (inr (inr e)))) ↦ rw e (omega (arith, h, k, different))
]

expected-collision :
    (m n : ℕ)
    → expected_check_digit m ≡ expected_check_digit n
    → (m % 11 ≡ n % 11) ⊎ (expected_check_digit m ≡ 1)
unfolding expected_check_digit
expected-collision m n same = ground arith

-- Changed sums with the same check digit have the check digit 1.
pub same-expected :
    (f c d m n : ℕ)
    → Shifted f c d m n
    → c < 10
    → d < 10
    → c ≢ d
    → expected_check_digit m ≡ expected_check_digit n
    → expected_check_digit m ≡ 1
same-expected f c d m n s h k different same = elim (expected-collision m n same) [
  | inl e ↦
      absurd (no-collision f c d s.base s.low s.high h k different (rw (← s.before, ← s.after) e))
  | inr e ↦ e
]
