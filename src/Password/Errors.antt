-- ===== src/Password/Errors.antt =====
-- What follows where no error is found (src/password-policy/password-policy.service.ts).
use mathlib.Core.List.Memᴰ
use mathlib.Core.List.{Memᴰ}
use facturify.Base.{
  ◌≤◌, ◌≡◌, refl, Bool, true, false, not, ◌||◌, Option, List, [], ◌∷◌, ◌++◌, any, length, ltb,
  arith, Bool-cases, inl, inr,
}
use facturify.Base.Result.{Result, ok, err}
use facturify.Js.Text.{Text, is_upper, is_lower, is_digit}
use facturify.Js.Value.{string}
use facturify.Password.Text.{Letters, contains_control_characters, has_excessive_repetitions}
use facturify.Password.Service.{
  PasswordError, outer_whitespace, control_characters, missing_uppercase, missing_lowercase,
  missing_number, missing_special, excessive_repetition, common_weak_pattern, min_length,
  max_length, max_consecutive_identical_chars, forbidden_words, PasswordValidationContext, when,
  is_special, has_outer_whitespace, has_word, length_errors, personal_errors, password_errors,
  is_empty_list, validate, assert_valid,
}

module _ {ℓ} {A : Type ℓ} where
  pub any-Memᴰ : (f : A → Bool) (xs : List A) → any f xs ≡ true → (a : A) × Memᴰ a xs × (f a ≡ true)
  any-Memᴰ f [] h = cc
  any-Memᴰ f (x ∷ xs) h = elim (Bool-cases (f x)) [
    | inl hit ↦ (x, Memᴰ.head refl, hit)
    | inr miss ↦ let (a, later, hit) = any-Memᴰ f xs (rw miss at h) in (a, Memᴰ.tail later, hit)
  ]

  pub none-Memᴰ : (f : A → Bool) (xs : List A) (a : A) → any f xs ≡ false → Memᴰ a xs → f a ≡ false
  none-Memᴰ f [] a h m = elim m [ ]
  none-Memᴰ f (x ∷ xs) a h m =
      let first : f x ≡ false = ground (arith, h) in
      let rest : any f xs ≡ false = ground (arith, h) in
      elim (Memᴰ.cases_cons m) [ inl e ↦ rw e first | inr later ↦ none-Memᴰ f xs a rest later ]

empty-append :
    (es fs : List PasswordError)
    → is_empty_list (es ++ fs) ≡ true
    → (is_empty_list es ≡ true) × (is_empty_list fs ≡ true)
empty-append [] fs h = (refl, h)
empty-append (e ∷ es) fs h = cc

pub when-empty : (b : Bool) (e : PasswordError) → is_empty_list (when b e) ≡ true → b ≡ false
when-empty true e h = cc
when-empty false e h = refl

when-not-empty : (b : Bool) (e : PasswordError) → is_empty_list (when (not b) e) ≡ true → b ≡ true
when-not-empty true e h = refl
when-not-empty false e h = cc

length-bounds :
    (s : Text)
    → is_empty_list (length_errors s) ≡ true
    → (min_length ≤ length s) × (length s ≤ max_length)
length-bounds s h = elim (Bool-cases (ltb (length s) min_length)) [
  | inl short ↦ let no : false ≡ true = rw short at h in cc
  | inr enough ↦ elim (Bool-cases (ltb max_length (length s))) [
    | inl long ↦ let no : false ≡ true = rw (enough, long) at h in cc
    | inr fits ↦ (ground (arith, enough), ground (arith, fits))
  ]
]

pub either_false : (a b : Bool) → (a || b) ≡ false → (a ≡ false) × (b ≡ false)
either_false true b h = cc
either_false false b h = (refl, h)

pub assert_valid-errors :
    (letters : Letters) (s : Text) (context : Option PasswordValidationContext)
    → assert_valid letters (string s) context ≡ ok tt
    → is_empty_list (password_errors letters s context) ≡ true
unfolding assert_valid validate
assert_valid-errors letters s context h =
    elim (Bool-cases (is_empty_list (password_errors letters s context))) [
      | inl empty ↦ empty
      | inr there ↦
          let no : Path (Result (List PasswordError) (Unit {0}))
              (err (password_errors letters s context)) (ok tt) =
            rw (there, assert_valid) at h in
          cc
    ]

module _ (letters : Letters) (s : Text) (context : Option PasswordValidationContext)
    (h : is_empty_list (password_errors letters s context) ≡ true) where
  -- The tests that found nothing.
  pub all_pass :
      (has_outer_whitespace s ≡ false)
      × (contains_control_characters s ≡ false)
      × ((min_length ≤ length s) × (length s ≤ max_length))
      × (any is_upper s ≡ true)
      × (any is_lower s ≡ true)
      × (any is_digit s ≡ true)
      × (any is_special s ≡ true)
      × (has_excessive_repetitions letters s max_consecutive_identical_chars ≡ false)
      × (any (has_word letters s) forbidden_words ≡ false)
      × (is_empty_list (personal_errors letters s context) ≡ true)
  unfolding password_errors
  all_pass =
      let (e1, r1) = empty-append (when (has_outer_whitespace s) outer_whitespace) _ h in
      let (e2, r2) = empty-append (when (contains_control_characters s) control_characters) _ r1 in
      let (e3, r3) = empty-append (length_errors s) _ r2 in
      let (e4, r4) = empty-append (when (not (any is_upper s)) missing_uppercase) _ r3 in
      let (e5, r5) = empty-append (when (not (any is_lower s)) missing_lowercase) _ r4 in
      let (e6, r6) = empty-append (when (not (any is_digit s)) missing_number) _ r5 in
      let (e7, r7) = empty-append (when (not (any is_special s)) missing_special) _ r6 in
      let (e8, r8) =
        empty-append
          (when (has_excessive_repetitions letters s max_consecutive_identical_chars)
            excessive_repetition)
          _ r7 in
      let (e9, r9) =
        empty-append (when (any (has_word letters s) forbidden_words) common_weak_pattern) _ r8 in
      (
        when-empty (has_outer_whitespace s) outer_whitespace e1,
        when-empty (contains_control_characters s) control_characters e2,
        length-bounds s e3,
        when-not-empty (any is_upper s) missing_uppercase e4,
        when-not-empty (any is_lower s) missing_lowercase e5,
        when-not-empty (any is_digit s) missing_number e6,
        when-not-empty (any is_special s) missing_special e7,
        when-empty (has_excessive_repetitions letters s max_consecutive_identical_chars)
            excessive_repetition e8,
        when-empty (any (has_word letters s) forbidden_words) common_weak_pattern e9,
        r9,
      )
