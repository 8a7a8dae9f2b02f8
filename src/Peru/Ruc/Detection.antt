-- ===== src/Peru/Ruc/Detection.antt =====
-- What the check digit of a RUC detects.
use facturify.Base.{
  ℕ, zero, suc, ◌≤◌, ◌<◌, ◌≡◌, ◌≢◌, refl, sym, ◌∙◌, ap, true, List, [], ◌∷◌, ◌++◌, length, all, inl,
  inr, arith, length-append, Bool-cases, ==_iff, ltb, ltb→lt,
}
use facturify.Js.Text.{Text, is_digit}
use facturify.Js.Number.{Num}
use facturify.Peru.{is_valid}
use facturify.Peru.Ruc.{
  digit_value, weighted_sum, ruc_factors, digit_at, expected_check_digit, judge_ruc,
}
use facturify.Peru.Ruc.Laws.{is_digits_iff, judge_ruc-tests}
use facturify.Peru.Ruc.CheckDigit.{Factors, weighted_sum-Shifted, same-expected}

module _ (c d : ℕ) (b : Text) where
  digit-middle : (a : Text) → all is_digit (a ++ (c ∷ b)) ≡ true → is_digit c ≡ true
  digit-middle [] h = ground (arith, h)
  digit-middle (x ∷ a) h =
      let rest : all is_digit (a ++ (c ∷ b)) ≡ true = ground (arith, h) in digit-middle a rest

  digit_at-middle : (a : Text) → digit_at (length a) (a ++ (c ∷ b)) ≡ digit_value c
  unfolding digit_at
  digit_at-middle [] = refl
  digit_at-middle (x ∷ a) = digit_at-middle a

  digit_at-elsewhere :
      (n : ℕ) (a : Text) → n ≢ length a → digit_at n (a ++ (c ∷ b)) ≡ digit_at n (a ++ (d ∷ b))
  unfolding digit_at
  digit_at-elsewhere zero [] h = absurd (h refl)
  digit_at-elsewhere (suc n) [] h = refl
  digit_at-elsewhere zero (x ∷ a) h = refl
  digit_at-elsewhere (suc n) (x ∷ a) h = digit_at-elsewhere n a (λ e. h (ap suc e))

  weighted_sum-beyond :
      (fs : List ℕ) (a : Text)
      → length fs ≤ length a
      → weighted_sum fs (a ++ (c ∷ b)) ≡ weighted_sum fs (a ++ (d ∷ b))
  unfolding weighted_sum
  weighted_sum-beyond [] a h = refl
  weighted_sum-beyond (f ∷ fs) [] h = absurd (omega (arith, h))
  weighted_sum-beyond (f ∷ fs) (x ∷ a) h =
      omega (arith, weighted_sum-beyond fs a (omega (arith, h)))

digit_value-apart :
    (c d : ℕ)
    → is_digit c ≡ true
    → is_digit d ≡ true
    → c ≢ d
    → (digit_value c < 10) × (digit_value d < 10) × (digit_value c ≢ digit_value d)
unfolding is_digit
digit_value-apart c d h k different = ground arith

factors : Factors ruc_factors
factors = omega arith

-- The two places where the texts can differ: among the first ten, or the last.
changed-early :
    (a b : Text) (c d : ℕ)
    → (digit_value c < 10) × (digit_value d < 10) × (digit_value c ≢ digit_value d)
    → length a < 10
    → digit_at 10 (a ++ (c ∷ b)) ≡ expected_check_digit (weighted_sum ruc_factors (a ++ (c ∷ b)))
    → digit_at 10 (a ++ (d ∷ b)) ≡ expected_check_digit (weighted_sum ruc_factors (a ++ (d ∷ b)))
    → digit_at 10 (a ++ (c ∷ b)) ≡ 1
changed-early a b c d (h, k, apart) early e e' =
    let (f, s) = weighted_sum-Shifted ruc_factors a b c d factors early in
    let same = digit_at-elsewhere c d b 10 a (omega (arith, early)) in
    e ∙ same-expected f (digit_value c) (digit_value d) _ _ s h k apart (sym e ∙ same ∙ e')

changed-last :
    (a b : Text) (c d : ℕ)
    → digit_value c ≢ digit_value d
    → length a ≡ 10
    → digit_at 10 (a ++ (c ∷ b)) ≡ expected_check_digit (weighted_sum ruc_factors (a ++ (c ∷ b)))
    → digit_at 10 (a ++ (d ∷ b)) ≢ expected_check_digit (weighted_sum ruc_factors (a ++ (d ∷ b)))
changed-last a b c d apart ten e e' =
    let same = weighted_sum-beyond c d b ruc_factors a (omega (arith, ten)) in
    let here : digit_at 10 (a ++ (c ∷ b)) ≡ digit_value c = rw ten at (digit_at-middle c d b a) in
    let there : digit_at 10 (a ++ (d ∷ b)) ≡ digit_value d = rw ten at (digit_at-middle d c b a) in
    apart (sym here ∙ e ∙ ap expected_check_digit same ∙ sym e' ∙ there)

-- If two texts that differ in one place only are both accepted as RUCs, then their check digit is 1:
-- no other RUC turns into a RUC by one wrong digit.
pub judge_ruc-one_digit :
    (show : Num → Text) (a b : Text) (c d : ℕ)
    → c ≢ d
    → is_valid (judge_ruc show (a ++ (c ∷ b))) ≡ true
    → is_valid (judge_ruc show (a ++ (d ∷ b))) ≡ true
    → digit_at 10 (a ++ (c ∷ b)) ≡ 1
judge_ruc-one_digit show a b c d different h k =
    let (shape, prefix, check) = (judge_ruc-tests show (a ++ (c ∷ b))).0 h in
    let (shape', prefix', check') = (judge_ruc-tests show (a ++ (d ∷ b))).0 k in
    let (eleven, digits) = (is_digits_iff 11 (a ++ (c ∷ b))).0 shape in
    let (_, digits') = (is_digits_iff 11 (a ++ (d ∷ b))).0 shape' in
    let apart =
      digit_value-apart c d (digit-middle c d b a digits) (digit-middle d c b a digits')
        different in
    let whole = length-append a (c ∷ b) in
    let e = (==_iff _ _).0 check in
    let e' = (==_iff _ _).0 check' in
    elim (Bool-cases (ltb (length a) 10)) [
      | inl early ↦ changed-early a b c d apart (ltb→lt (length a) 10 early) e e'
      | inr late ↦
          let ten : length a ≡ 10 = ground (arith, whole, eleven) in
          absurd (changed-last a b c d apart.2 ten e e')
    ]
