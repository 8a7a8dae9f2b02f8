-- ===== src/Sunat/Numbers.antt =====
-- The numbers of SUNAT's errors (src/sunat-errors/sunat-error-classifier.service.ts).
use facturify.Base.{
  ℕ, ◌+◌, ◌-◌, ◌*◌, ◌/◌, ◌%◌, ◌<◌, ◌≡◌, ◌⊎◌, refl, ap, ◌∙◌, Bool, true, false, ◌&&◌, ◌||◌, none,
  some, [], ◌∷◌, all, leb, ltb, ◌==◌, if◌then◌else◌, arith, Bool-cases, inl, inr,
}
use facturify.Js.Text.{Text, codes, is_alnum, is_digit, is_upper, is_space, lower_unit, trim}
use facturify.Js.Number.{Num}
use facturify.Js.Pattern.{Matcher, done, unit_then, maybe_then, star_then, word_then, found_in}
use facturify.Sunat.Table.{SunatErrorCategory, validation, rejected, unknown}
use facturify.Sunat.Tokens.{
  network_tests, first_true, network_token, status_here, http_here, http_status, four_here,
  four_digits, is_word, cleaned,
}
use facturify.Sunat.Codes.{absent, lookup_code, ErrorInput, input_text, code_of_text}
use facturify.Sunat.Classifier.{
  with_default, four_digit_number, classify_unknown, classify_range, classify_code, classify,
}
use facturify.Sunat.Public.{digit-unit}
use facturify.Sunat.Network.{classify-code, cons_there}

digit_lower : (c : ℕ) → is_digit c ≡ true → lower_unit c ≡ c
unfolding is_digit lower_unit is_upper
digit_lower c h = ground (arith, h)

differ : (x c : ℕ) → is_digit x ≡ false → is_digit c ≡ true → (x == c) ≡ false
unfolding is_digit
differ x c h k = ground (arith, h, k)

-- No word that starts with a letter is found in digits.
word-digits :
    (x : ℕ) (xs : Text) (k : Matcher) (s : Text)
    → is_digit x ≡ false
    → all is_digit s ≡ true
    → found_in (word_then (x ∷ xs) k) s ≡ false
unfolding found_in word_then
word-digits x xs k [] h d = refl
word-digits x xs k (c ∷ s) h d =
    let head : is_digit c ≡ true = ground (arith, d) in
    let tail : all is_digit s ≡ true = ground (arith, d) in
    let differs : (x == c) ≡ false = differ x c h head in
    rw (digit_lower c head, differs, word-digits x xs k s h tail) refl

network-digits : (s : Text) → all is_digit s ≡ true → network_token s ≡ none
unfolding network_token network_tests first_true is_digit
network-digits s d =
    let out = word_then (codes "out") done in
    let behind = λ (w : Text). unit_then is_space (star_then is_space (word_then w done)) in
    rw
      (
        word-digits b'e' (codes "sockettimedout") done s refl d,
        word-digits b'e' (codes "timedout") done s refl d,
        word-digits b't' (codes "ime")
            (maybe_then (λ c. c == b'd' || c == b'D') (star_then is_space out)) s refl d,
        word-digits b't' (codes "imeout") done s refl d,
        word-digits b'e' (codes "connreset") done s refl d,
        word-digits b'c' (codes "onnection") (behind (codes "reset")) s refl d,
        word-digits b'e' (codes "connrefused") done s refl d,
        word-digits b'c' (codes "onnection") (behind (codes "refused")) s refl d,
        word-digits b'e' (codes "notfound") done s refl d,
        word-digits b'e' (codes "ai_again") done s refl d,
        word-digits b'a' (codes "borterror") done s refl d,
        word-digits b'r' (codes "equest") (behind (codes "aborted")) s refl d,
      )
      refl

digit-word : (c : ℕ) → is_digit c ≡ true → is_word c ≡ true
unfolding is_alnum
digit-word c h = ground (arith, h)

-- Nothing begins behind a digit.
http-behind : (s : Text) → all is_digit s ≡ true → http_status true s ≡ none
unfolding http_status
http-behind [] d = refl
http-behind (c ∷ s) d =
    let head : is_word c ≡ true = digit-word c (ground (arith, d)) in
    let tail : all is_digit s ≡ true = ground (arith, d) in rw (head, http-behind s tail) refl

http-next :
    (c : ℕ) (s : Text)
    → is_word c ≡ true
    → http_here (c ∷ s) ≡ none
    → http_status false (c ∷ s) ≡ http_status true s
unfolding http_status
http-next c s h k = rw (h, k) (ap (λ w. http_status w s) h)

and_false : (b : Bool) → (b && false) ≡ false
and_false true = refl
and_false false = refl

-- A text of four digits is its own code.
module _ (a b c d : ℕ) (da : is_digit a ≡ true) (db : is_digit b ≡ true) (dc : is_digit c ≡ true)
    (dd : is_digit d ≡ true) where
  http_here-four : http_here (a ∷ b ∷ c ∷ d ∷ []) ≡ none
  unfolding http_here word_then status_here is_digit
  http_here-four = rw (digit_lower a da, differ b'h' a refl da, digit-word d dd, and_false) refl

  http-four : http_status false (a ∷ b ∷ c ∷ d ∷ []) ≡ none
  http-four =
      http-next a (b ∷ c ∷ d ∷ []) (digit-word a da) http_here-four
      ∙ http-behind (b ∷ c ∷ d ∷ []) (rw (db, dc, dd) refl)

  clean-four : cleaned (a ∷ b ∷ c ∷ d ∷ []) ≡ some (a ∷ b ∷ c ∷ d ∷ [])
  unfolding cleaned
  clean-four = rw (digit-unit a da, digit-unit b db, digit-unit c dc, digit-unit d dd) refl

  digits-four :
      (four_digits false (a ∷ b ∷ c ∷ d ∷ []) ≡ some (a ∷ b ∷ c ∷ d ∷ []))
      ⊎ (four_digits false (a ∷ b ∷ c ∷ d ∷ []) ≡ none)
  unfolding four_digits four_here
  digits-four = elim (Bool-cases (leb b'0' a && leb a b'4')) [
    | inl low ↦ inl (rw (low, db, dc, dd) refl)
    | inr high ↦ inr (rw (high, da, db, dc) refl)
  ]

  code_of_text-four :
      lookup_code (a ∷ b ∷ c ∷ d ∷ []) ≡ absent
      → code_of_text (a ∷ b ∷ c ∷ d ∷ []) ≡ some (a ∷ b ∷ c ∷ d ∷ [])
  unfolding code_of_text
  code_of_text-four h =
      let network = network-digits (a ∷ b ∷ c ∷ d ∷ []) (rw (da, db, dc, dd) refl) in
      elim digits-four [
        | inl hit ↦ rw (h, network, http-four, hit) refl
        | inr miss ↦ rw (h, network, http-four, miss, clean-four) refl
      ]

-- What the range of a number means.
abbrev pub range_category : ℕ → SunatErrorCategory
range_category n =
    if leb 2000 n && ltb n 3000
    then validation
    else if leb 3000 n && leb n 4999
    then rejected
    else unknown

-- A number below 10000 in four digits.
abbrev pub four_digit_text : ℕ → Text
four_digit_text n =
    (n / 1000 + b'0') ∷ (n / 100 % 10 + b'0') ∷ (n / 10 % 10 + b'0') ∷ (n % 10 + b'0') ∷ []

digit-plus : (d : ℕ) → d < 10 → is_digit (d + b'0') ≡ true
unfolding is_digit
digit-plus d h = ground (arith, h)

classify_code-absent :
    (s : Text)
    → lookup_code s ≡ absent
    → classify_code s ≡ some (classify_range s (four_digit_number s))
unfolding classify_code
classify_code-absent s h = rw h refl

module _ (n : ℕ) (h : n < 10000) where
  first-digit : is_digit (n / 1000 + b'0') ≡ true
  first-digit = digit-plus (n / 1000) (omega (arith, h))

  second-digit : is_digit (n / 100 % 10 + b'0') ≡ true
  second-digit = digit-plus (n / 100 % 10) (omega arith)

  third-digit : is_digit (n / 10 % 10 + b'0') ≡ true
  third-digit = digit-plus (n / 10 % 10) (omega arith)

  fourth-digit : is_digit (n % 10 + b'0') ≡ true
  fourth-digit = digit-plus (n % 10) (omega arith)

  four-sum :
      (n / 1000 + 48 - 48) * 1000
        + (n / 100 % 10 + 48 - 48) * 100
        + (n / 10 % 10 + 48 - 48) * 10
        + (n % 10 + 48 - 48)
      ≡ n
  four-sum = omega (arith, h)

  number-four : four_digit_number (four_digit_text n) ≡ some n
  unfolding four_digit_number
  number-four = rw (first-digit, second-digit, third-digit, fourth-digit, four-sum) refl

  unknown-four : classify_unknown (four_digit_text n) ≡ with_default unknown (four_digit_text n)
  unfolding classify_unknown
  unknown-four =
      rw
        (
          digit-unit _ first-digit,
          digit-unit _ second-digit,
          digit-unit _ third-digit,
          digit-unit _ fourth-digit,
        )
        refl

  range-four :
      classify_range (four_digit_text n) (some n)
      ≡ with_default (range_category n) (four_digit_text n)
  unfolding classify_range
  range-four = elim (Bool-cases (leb 2000 n && ltb n 3000)) [
    | inl low ↦ rw low refl
    | inr not_low ↦ elim (Bool-cases (leb 3000 n && leb n 4999)) [
      | inl high ↦ rw (not_low, high) refl
      | inr not_high ↦ rw (not_low, not_high) unknown-four
    ]
  ]

  code-four :
      lookup_code (four_digit_text n) ≡ absent
      → classify_code (four_digit_text n)
        ≡ some (with_default (range_category n) (four_digit_text n))
  code-four free =
      classify_code-absent (four_digit_text n) free
      ∙ ap (λ m. some (classify_range (four_digit_text n) m)) number-four
      ∙ ap some range-four

-- A number of four digits, as a string, a number or with white space around it, that is not in the table
-- has the category of its range, is not tried again, and is shown as it is: 2000 to 2999 is a
-- validation error, 3000 to 4999 a rejection, and any other is unknown.
pub classify-number :
    (show : Num → Text) (input : ErrorInput) (n : ℕ)
    → n < 10000
    → trim (input_text show input) ≡ four_digit_text n
    → lookup_code (four_digit_text n) ≡ absent
    → classify show input ≡ some (with_default (range_category n) (four_digit_text n))
classify-number show input n h same free =
    classify-code show input (four_digit_text n)
      (rw same (
        cons_there (n / 1000 + b'0')
          ((n / 100 % 10 + b'0') ∷ (n / 10 % 10 + b'0') ∷ (n % 10 + b'0') ∷ [])))
      (rw same (
        code_of_text-four (n / 1000 + b'0') (n / 100 % 10 + b'0') (n / 10 % 10 + b'0')
          (n % 10 + b'0') (first-digit n h) (second-digit n h) (third-digit n h) (fourth-digit n h)
          free))
    ∙ code-four n h free
