-- ===== src/Tax/Tests.antt =====
-- Decimals as whole millionths, runs of the calculation over them, and instances of the theorems.
use mathlib.Core.Path.{ap₂}
use facturify.Base.{
  ℕ, ◌+◌, ◌-◌, ◌*◌, ◌/◌, ◌%◌, ◌^◌, ◌≤◌, ◌<◌, ◌≡◌, refl, ◌∙◌, true, false, Option, none, some, List,
  [], ◌∷◌, length, arith, ltb, ◌==◌, if◌then◌else◌,
}
use facturify.Base.Result.{ok, err}
use facturify.Js.Text.{codes, trim, trim_start, trim_end}
use facturify.Tax.Decimal.{Decimals, DecimalLaws, Rounded}
use facturify.Tax.Service.{
  TaxableItemInput, CalculatedLineItem, DocumentTaxSummary, decimal, text, array, with_items,
  in_item, in_field, unit_price_field, not_positive, no_items, bad_format, empty, too_many_places,
  calculate_document, calculate_items, calculate_item, calculate_amounts, sum_by, summarize,
  parse_quantity, parse_unit_price, parse_positive, parse_decimal, check_input,
  validate_decimal_places, round_money, matches_number, literal_places, items_of,
}
use facturify.Tax.Line.{IsLine, Asks, calculate_item-IsLine, line_subtotal}
use facturify.Tax.Document.{
  Lines, IsSummary, AreAsked, sum_cents, line_tax, calculate_document-IsSummary,
}
use facturify.Tax.Errors.{StopsAt, calculate_items-StopsAt}

abbrev places : ℕ → ℕ
places d =
    if d % 1000000 == 0
    then 0
    else if d % 100000 == 0
    then 1
    else if d % 10000 == 0
    then 2
    else if d % 1000 == 0
    then 3
    else if d % 100 == 0
    then 4
    else if d % 10 == 0
    then 5
    else 6

abbrev scale : ℕ → ℕ
scale k = 10 ^ (6 - k)

abbrev millionths : Decimals
millionths = record {
  Decimal = ℕ;
  constant = λ n k. n * scale k;
  of_text = λ s. none;
  of_number = λ x. none;
  is_finite = λ d. true;
  at_most_zero = λ d. d == 0;
  decimal_places = places;
  greater_than = λ d e. ltb e d;
  mul = λ d e. d * e / 1000000;
  add = λ d e. d + e;
  to_money = λ d. (d + 5000) / 10000 * 10000;
}

abbrev At : ℕ → ℕ → ℕ → Type 0
At d k n = d ≡ n * scale k

exact : (n r : ℕ) → r ≡ n → Rounded n r
exact n r e = ((λ _. e), λ h. omega (arith, e, h))

places-2 : (d : ℕ) → (d == 0) ≡ false → places d ≤ 2 → (n : ℕ) × (0 < n) × At d 2 n
places-2 d h k =
    let whole : d ≡ d / 10000 * 10000 = ground arith in (d / 10000, ground arith, whole)

places-4 : (d : ℕ) → (d == 0) ≡ false → places d ≤ 4 → (n : ℕ) × (0 < n) × At d 4 n
places-4 d h k = let whole : d ≡ d / 100 * 100 = ground arith in (d / 100, ground arith, whole)

product-4-2 : (d e m n : ℕ) → At d 4 m → At e 2 n → d * e / 1000000 ≡ m * n * 1
product-4-2 d e m n h k =
    let p : d * e ≡ m * n * 1000000 = ap₂ (λ a b. a * b) h k ∙ grind arith in omega (arith, p)

product-2-2 : (d e m n : ℕ) → At d 2 m → At e 2 n → d * e / 1000000 ≡ m * n * 100
product-2-2 d e m n h k =
    let p : d * e ≡ m * n * 100000000 = ap₂ (λ a b. a * b) h k ∙ grind arith in omega (arith, p)

laws : DecimalLaws millionths
laws = record {
  At = At;
  constant_at = λ n. refl;
  constant_at_4 = λ n. refl;
  places_2 = λ d _ h k. places-2 d h k;
  places_4 = λ d _ h k. places-4 d h k;
  greater_than_2 = λ d e m n h k. ground (arith, h, k);
  greater_than_4 = λ d e m n h k. ground (arith, h, k);
  mul_4_2 = λ d e m n h k. (m * n, product-4-2 d e m n h k, exact (m * n) (m * n) refl);
  mul_2_2 = λ d e m n h k. (m * n, product-2-2 d e m n h k, exact (m * n) (m * n) refl);
  add_2 = λ d e m n h k. (m + n, omega (arith, h, k), exact (m + n) (m + n) refl);
  to_money_6 = λ d n h. omega (arith, h);
  to_money_4 = λ d n h. omega (arith, h);
}

-- 2.5 units at 33.33 and 3 units at 0.01.

abbrev first : Option (TaxableItemInput millionths)
first = some (record {
  description = some (codes "toner");
  quantity = decimal 2500000;
  unit_price = decimal 33330000;
})

abbrev second : Option (TaxableItemInput millionths)
second =
    some (record { description = none; quantity = decimal 3000000; unit_price = decimal 10000 })

abbrev free : Option (TaxableItemInput millionths)
free = some (record { description = none; quantity = decimal 3000000; unit_price = decimal 0 })

abbrev first_line : CalculatedLineItem millionths
first_line = record {
  description = some (codes "toner");
  quantity = 2500000;
  unit_price = 33330000;
  unit_price_with_tax = 39330000;
  subtotal = 83330000;
  tax = 15000000;
  total = 98330000;
}

abbrev second_line : CalculatedLineItem millionths
second_line = record {
  description = none;
  quantity = 3000000;
  unit_price = 10000;
  unit_price_with_tax = 10000;
  subtotal = 30000;
  tax = 10000;
  total = 40000;
}

abbrev summary : DocumentTaxSummary millionths
summary = record {
  subtotal = 83360000;
  tax = 15010000;
  total = 98370000;
  items = first_line ∷ second_line ∷ [];
  item_count = 2;
}

opened : Unit {0}
unfolding calculate_document calculate_items calculate_item calculate_amounts sum_by summarize
    parse_quantity parse_unit_price parse_positive parse_decimal check_input validate_decimal_places
    round_money matches_number literal_places trim trim_start trim_end
opened = tt

first_run : calculate_item millionths first ≡ ok first_line
unfolding opened
first_run = refl

document_run : calculate_document millionths (array (first ∷ second ∷ [])) ≡ ok summary
unfolding opened
document_run = refl

empty_run : calculate_document millionths (with_items []) ≡ err no_items
unfolding opened
empty_run = refl

free_run :
    calculate_items millionths 0 (first ∷ free ∷ second ∷ [])
    ≡ err (in_item 2 (in_field unit_price_field not_positive))
unfolding opened
free_run = refl

number_forms :
    (check_input millionths (text (codes " -1.5e+3 ")) ≡ ok tt)
    × (check_input millionths (text (codes "1.")) ≡ err bad_format)
    × (check_input millionths (text (codes "  ")) ≡ err empty)
    × (check_input millionths (text (codes "0x10")) ≡ err bad_format)
unfolding opened
number_forms = (refl, refl, refl, refl)

-- A text is held to the places that it writes, zeros at its end included.
written_places :
    (validate_decimal_places millionths (text (codes "1.500")) 1500000 2 ≡ err too_many_places)
    × (validate_decimal_places millionths (decimal 1500000) 1500000 2 ≡ ok tt)
unfolding opened
written_places = (refl, refl)

calculate_item-IsLine_example :
    (q : ℕ) × (p : ℕ) × (0 < q)
    × (0 < p)
    × Asks millionths laws first q p
    × IsLine millionths laws q p first_line
calculate_item-IsLine_example = calculate_item-IsLine millionths laws first first_line first_run

calculate_document-IsSummary_example :
    (items : List (Option (TaxableItemInput millionths))) × (ls : Lines) × (items_of millionths
        (array (first ∷ second ∷ []))
      ≡ ok items)
    × (0 < length ls)
    × (length ls ≡ length items)
    × AreAsked millionths laws ls items
    × IsSummary millionths laws ls summary
    × (100 * sum_cents line_tax ls ≤ 18 * sum_cents line_subtotal ls + 50 * 2)
    × (18 * sum_cents line_subtotal ls ≤ 100 * sum_cents line_tax ls + 50 * 2)
calculate_document-IsSummary_example =
    calculate_document-IsSummary millionths laws (array (first ∷ second ∷ [])) summary document_run

calculate_items-StopsAt_example :
    StopsAt millionths 0
      (first ∷ free ∷ second ∷ [])
      (in_item 2 (in_field unit_price_field not_positive))
calculate_items-StopsAt_example =
    calculate_items-StopsAt millionths 0 (first ∷ free ∷ second ∷ [])
      (in_item 2 (in_field unit_price_field not_positive)) free_run
