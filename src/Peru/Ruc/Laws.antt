-- ===== src/Peru/Ruc/Laws.antt =====
-- Which texts `validateRuc` accepts.
use mathlib.Core.List.{Memᴰ}
use facturify.Base.{
  ℕ, ◌+◌, ◌≤◌, ◌<◌, ◌≡◌, refl, sym, ◌∙◌, ap, Bool, true, false, not, ◌&&◌, List, [], ◌∷◌, ◌++◌,
  length, take, all, ◌==◌, if◌then◌else◌, arith, ◌↔◌, length-append, ==_iff,
}
use facturify.Js.Text.{Text, includes, is_digit}
use facturify.Js.Text.Laws.{includes-Memᴰ, Memᴰ-includes}
use facturify.Js.Number.{Num}
use facturify.Js.Value.{Value}
use facturify.Peru.{ValidationResult, valid, is_valid, raw_text, is_digits}
use facturify.Peru.Ruc.{
  valid_ruc_prefixes, digit_value, weighted_sum, ruc_factors, digit_at, expected_check_digit,
  judge_ruc, validate_ruc,
}
use facturify.Peru.Ruc.CheckDigit.{Completes, expected-Completes, expected-lt}

-- Eleven digits with a prefix of SUNAT and the check digit of the first ten.
pub record IsRuc (s : Text) : Type 0 where
  pub eleven : length s ≡ 11
  pub digits : all is_digit s ≡ true
  pub prefix : Memᴰ (take 2 s) valid_ruc_prefixes
  pub check_digit : Completes (weighted_sum ruc_factors s) (digit_at 10 s)

pub is_digits_iff :
    (n : ℕ) (s : Text) → (is_digits n s ≡ true) ↔ ((length s ≡ n) × (all is_digit s ≡ true))
unfolding is_digits
is_digits_iff n s = ground arith

guards :
    (a b c : Bool) (e f g : ValidationResult)
    → is_valid e ≡ false
    → is_valid f ≡ false
    → is_valid g ≡ false
    → (is_valid (if not a then e else if not b then f else if not c then g else valid) ≡ true)
      ↔ ((a ≡ true) × (b ≡ true) × (c ≡ true))
unfolding is_valid
guards true true true e f g h k l = ground arith
guards true true false e f g h k l = ground (arith, l)
guards true false c e f g h k l = ground (arith, k)
guards false b c e f g h k l = ground (arith, h)

-- The tests of the code, as three equations.
pub judge_ruc-tests :
    (show : Num → Text) (s : Text)
    → (is_valid (judge_ruc show s) ≡ true) ↔ (
        (is_digits 11 s ≡ true)
        × (includes valid_ruc_prefixes (take 2 s) ≡ true)
        × ((digit_at 10 s == expected_check_digit (weighted_sum ruc_factors s)) ≡ true))
unfolding judge_ruc is_valid
judge_ruc-tests show s =
    guards (is_digits 11 s) (includes valid_ruc_prefixes (take 2 s))
      (digit_at 10 s == expected_check_digit (weighted_sum ruc_factors s)) _ _ _ refl refl refl

judge_ruc_iff : (show : Num → Text) (s : Text) → (is_valid (judge_ruc show s) ≡ true) ↔ IsRuc s
judge_ruc_iff show s =
    let sum = weighted_sum ruc_factors s in
    (
      (λ h.
          let (shape, prefix, check) = (judge_ruc-tests show s).0 h in
          let (eleven, digits) = (is_digits_iff 11 s).0 shape in
          record {
            eleven = eleven;
            digits = digits;
            prefix = includes-Memᴰ valid_ruc_prefixes (take 2 s) prefix;
            check_digit =
                (expected-Completes sum (digit_at 10 s)).0
                  ((==_iff (digit_at 10 s) (expected_check_digit sum)).0 check);
          }),
      λ r. (judge_ruc-tests show s).1 (
        (is_digits_iff 11 s).1 (r.eleven, r.digits),
        Memᴰ-includes r.prefix,
        (==_iff (digit_at 10 s) (expected_check_digit sum)).1
            ((expected-Completes sum (digit_at 10 s)).1 r.check_digit),
      ),
    )

-- A value is accepted as a RUC exactly if its trimmed text is eleven digits that start with a prefix
-- of SUNAT and end in the check digit: the one that completes the weighted sum of the first ten to a
-- multiple of 11, with remainders 0 and 1 standing for the digits 1 and 0.
pub validate_ruc_iff :
    (show : Num → Text) (v : Value)
    → (is_valid (validate_ruc show v) ≡ true) ↔ IsRuc (raw_text show v)
unfolding validate_ruc
validate_ruc_iff show v = judge_ruc_iff show (raw_text show v)

module _ (c : ℕ) where
  all-last : (s : Text) → all is_digit (s ++ (c ∷ [])) ≡ (all is_digit s && is_digit c)
  all-last [] = ground arith
  all-last (d ∷ s) = ground (arith, all-last s)

  take-last : (s : Text) → 2 ≤ length s → take 2 (s ++ (c ∷ [])) ≡ take 2 s
  take-last [] h = absurd (omega (arith, h))
  take-last (d ∷ []) h = absurd (omega (arith, h))
  take-last (d ∷ e ∷ s) h = refl

  digit_at-last : (s : Text) → digit_at (length s) (s ++ (c ∷ [])) ≡ digit_value c
  unfolding digit_at
  digit_at-last [] = refl
  digit_at-last (d ∷ s) = digit_at-last s

  weighted_sum-last :
      (fs : List ℕ) (s : Text)
      → length fs ≡ length s
      → weighted_sum fs (s ++ (c ∷ [])) ≡ weighted_sum fs s
  unfolding weighted_sum
  weighted_sum-last [] [] h = refl
  weighted_sum-last [] (d ∷ s) h = absurd (omega (arith, h))
  weighted_sum-last (f ∷ fs) [] h = absurd (omega (arith, h))
  weighted_sum-last (f ∷ fs) (d ∷ s) h = omega (arith, weighted_sum-last fs s (omega (arith, h)))

digit-code : (d : ℕ) → d < 10 → is_digit (b'0' + d) ≡ true
unfolding is_digit
digit-code d h = ground arith

-- Ten digits that start with a prefix of SUNAT are completed to a RUC by exactly one of the ten digits.
pub judge_ruc-completion :
    (show : Num → Text) (s : Text)
    → length s ≡ 10
    → all is_digit s ≡ true
    → Memᴰ (take 2 s) valid_ruc_prefixes
    → (c : ℕ) × (c < 10)
      × ((d : ℕ) → d < 10 → (is_valid (judge_ruc show (s ++ ((b'0' + d) ∷ []))) ≡ true) ↔ (d ≡ c))
judge_ruc-completion show s ten digits prefix =
    let c = expected_check_digit (weighted_sum ruc_factors s) in
    (
      c,
      expected-lt (weighted_sum ruc_factors s),
      λ d h.
          let w = s ++ ((b'0' + d) ∷ []) in
          let last : digit_at 10 w ≡ d = rw ten at (digit_at-last (b'0' + d) s) ∙ omega arith in
          let sum : weighted_sum ruc_factors w ≡ weighted_sum ruc_factors s =
            weighted_sum-last (b'0' + d) ruc_factors s (sym ten) in
          let shape : is_digits 11 w ≡ true = (is_digits_iff 11 w).1 (
            length-append s ((b'0' + d) ∷ []) ∙ omega (arith, ten),
            all-last (b'0' + d) s ∙ ground (arith, digits, digit-code d h),
          ) in
          let same : take 2 w ≡ take 2 s = take-last (b'0' + d) s (omega (arith, ten)) in
          let start : includes valid_ruc_prefixes (take 2 w) ≡ true =
            rw same (Memᴰ-includes prefix) in
          (
            (λ v.
                sym last
                ∙ (==_iff _ _).0 ((judge_ruc-tests show w).0 v).2
                ∙ ap expected_check_digit sum),
            λ e.
                (judge_ruc-tests show w).1
                  (shape, start, (==_iff _ _).1 (last ∙ e ∙ ap expected_check_digit (sym sum))),
          ),
    )
