-- ===== src/Tax/Service.antt =====
-- src/tax-calculation/tax-calculation.service.ts, over the operations of decimals.
use facturify.Base.{
  ℕ, ◌+◌, Bool, true, false, not, ◌||◌, Option, none, some, List, [], ◌∷◌, ltb, ◌==◌, if◌then◌else◌,
  length,
}
use facturify.Base.Result.{Result, ok, err, ◌>>=◌, ◌>>◌, throw_if}
use facturify.Js.Text.{Text, trim, is_digit}
use facturify.Js.Number.{Num, is_finite}
use facturify.Tax.Decimal.{Decimals}

-- The messages of `BadRequestException`, and the item that one was thrown for.
-- The name of a value in the messages.
pub data Label : Type 0 where
  quantity_field unit_price_field amount_field : Label

pub data TaxError : Type 0 where
  required not_finite empty bad_format bad_type not_numeric not_positive too_many_places too_large :
      TaxError
  bad_item subtotal_too_large total_too_large no_items_list no_items document_too_large : TaxError
  in_item : ℕ → TaxError → TaxError
  in_field : Label → TaxError → TaxError

abbrev pub M : Type 0 → Type 0
M = Result TaxError

-- The messages of a value have its name.
abbrev pub labelled {ℓ} : {A : Type ℓ} → Label → Result TaxError A → Result TaxError A
labelled field (ok a) = ok a
labelled field (err e) = err (in_field field e)

abbrev is_empty : Text → Bool
is_empty [] = true
is_empty (_ ∷ _) = false

-- The regular expression of a number: `^-?\d+(\.\d+)?([eE][+-]?\d+)?$`, a state for what was read.
pub data Seen : Type 0 where
  start minus digits point fraction mark sign exponent : Seen

abbrev is_mark : ℕ → Bool
is_mark c = c == b'e' || c == b'E'

abbrev pub next_seen : Seen → ℕ → Option Seen
next_seen start c = if c == b'-' then some minus else if is_digit c then some digits else none
next_seen minus c = if is_digit c then some digits else none
next_seen digits c =
    if is_digit c
    then some digits
    else if c == b'.'
    then some point
    else if is_mark c
    then some mark
    else none
next_seen point c = if is_digit c then some fraction else none
next_seen fraction c = if is_digit c then some fraction else if is_mark c then some mark else none
next_seen mark c =
    if is_digit c then some exponent else if c == b'+' || c == b'-' then some sign else none
next_seen sign c = if is_digit c then some exponent else none
next_seen exponent c = if is_digit c then some exponent else none

abbrev accepts : Seen → Bool
accepts digits = true
accepts fraction = true
accepts exponent = true
accepts _ = false

unfoldable pub matches_number : Seen → Text → Bool
unfolding is_digit
matches_number seen [] = accepts seen
matches_number seen (c ∷ s) = elim (next_seen seen c) [
  | none ↦ false
  | some seen' ↦ matches_number seen' s
]

-- `trimmed.length - dotIndex - 1` for the first dot, if there is one.
unfoldable pub literal_places : Text → Option ℕ
literal_places [] = none
literal_places (c ∷ s) = let rest = literal_places s in if c == b'.' then some (length s) else rest

abbrev exceeds : Option ℕ → ℕ → Bool
exceeds none most = false
exceeds (some places) most = ltb most places

module _ (D : Decimals) where
  open D use {
    Decimal, constant, of_text, of_number, is_finite as is_finite_decimal, at_most_zero,
    decimal_places, greater_than, mul, add, to_money,
  }

  -- A value that is given for a number; `missing` is `null` or `undefined`.
  pub data Input : Type 0 where
    missing other : Input
    number : Num → Input
    text : Text → Input
    decimal : Decimal → Input

  pub record TaxableItemInput : Type 0 where
    pub description : Option Text
    pub quantity : Input
    pub unit_price : Input

  -- The field `priceWithTax` repeats `unitPriceWithTax`; other keys of an item, which are copied, are left out.
  pub record CalculatedLineItem : Type 0 where
    pub description : Option Text
    pub quantity : Decimal
    pub unit_price : Decimal
    pub unit_price_with_tax : Decimal
    pub subtotal : Decimal
    pub tax : Decimal
    pub total : Decimal

  pub record DocumentTaxSummary : Type 0 where
    pub subtotal : Decimal
    pub tax : Decimal
    pub total : Decimal
    pub items : List CalculatedLineItem
    pub item_count : ℕ

  abbrev pub igv_rate : Decimal
  igv_rate = constant 18 2

  abbrev pub igv_factor : Decimal
  igv_factor = constant 118 2

  abbrev pub max_quantity : Decimal
  max_quantity = constant 99999999999999 4

  abbrev pub max_unit_price : Decimal
  max_unit_price = constant 99999999999999 2

  abbrev pub max_monetary_amount : Decimal
  max_monetary_amount = constant 99999999999999 2

  -- `new Prisma.Decimal(val)` in its `try`.
  abbrev pub construct : Input → Option Decimal
  construct missing = none
  construct other = none
  construct (number x) = of_number x
  construct (text s) = of_text s
  construct (decimal d) = some d

  -- The tests on the type and the form of a value.
  unfoldable pub check_input : Input → M (Unit {0})
  unfolding is_finite trim matches_number
  check_input missing = err required
  check_input other = err bad_type
  check_input (number x) = throw_if (not (is_finite x)) not_finite
  check_input (text s) = do
    throw_if (is_empty (trim s)) empty
    throw_if (not (matches_number start (trim s))) bad_format
  check_input (decimal d) = ok tt

  abbrev pub constructed : Option Decimal → M Decimal
  constructed none = err not_numeric
  constructed (some d) = if is_finite_decimal d then ok d else err not_finite

  unfoldable pub parse_decimal : Input → M Decimal
  parse_decimal val = do check_input val; constructed (construct val)

  abbrev pub literal_exceeds : Input → ℕ → Bool
  literal_exceeds (text s) most = exceeds (literal_places (trim s)) most
  literal_exceeds _ most = false

  unfoldable pub validate_decimal_places : Input → Decimal → ℕ → M (Unit {0})
  unfolding literal_places trim
  validate_decimal_places val d max_places = do
    throw_if (ltb max_places (decimal_places d)) too_many_places
    throw_if (literal_exceeds val max_places) too_many_places

  -- `parseQuantity` and `parseUnitPrice`, which differ in the places and the limit.
  unfoldable pub parse_positive : ℕ → Decimal → Input → M Decimal
  parse_positive max_places limit val = do
    d ← parse_decimal val
    throw_if (at_most_zero d) not_positive
    validate_decimal_places val d max_places
    throw_if (greater_than d limit) too_large
    ok d

  unfoldable pub parse_quantity : Input → M Decimal
  parse_quantity val = labelled quantity_field (parse_positive 4 max_quantity val)

  unfoldable pub parse_unit_price : Input → M Decimal
  parse_unit_price val = labelled unit_price_field (parse_positive 2 max_unit_price val)

  unfoldable pub round_money : Input → M Decimal
  round_money val = do d ← labelled amount_field (parse_decimal val); ok (to_money d)

  -- The amounts of a line, from its quantity and its unit price.
  unfoldable pub calculate_amounts : Option Text → Decimal → Decimal → M CalculatedLineItem
  calculate_amounts description quantity unit_price = do
    let subtotal = to_money (mul quantity unit_price)
    throw_if (greater_than subtotal max_monetary_amount) subtotal_too_large
    let tax = to_money (mul subtotal igv_rate)
    let total = add subtotal tax
    throw_if (greater_than total max_monetary_amount) total_too_large
    ok (record {
      description = description;
      quantity = quantity;
      unit_price = unit_price;
      unit_price_with_tax = to_money (mul unit_price igv_factor);
      subtotal = subtotal;
      tax = tax;
      total = total;
    })

  -- `none` is an item that is no object.
  unfoldable pub calculate_item : Option TaxableItemInput → M CalculatedLineItem
  calculate_item none = err bad_item
  calculate_item (some item) = do
    quantity ← parse_quantity item.quantity
    unit_price ← parse_unit_price item.unit_price
    calculate_amounts item.description quantity unit_price

  abbrev pub named : ℕ → M CalculatedLineItem → M CalculatedLineItem
  named i (ok r) = ok r
  named i (err e) = err (in_item i e)

  -- The `map` over the items; an item's number counts from 1.
  unfoldable pub calculate_items : ℕ → List (Option TaxableItemInput) → M (List CalculatedLineItem)
  calculate_items index [] = ok []
  calculate_items index (item ∷ items) = do
    r ← named (index + 1) (calculate_item item)
    rs ← calculate_items (index + 1) items
    ok (r ∷ rs)

  -- `reduce((sum, item) => sum.add(item.field), …)`
  unfoldable pub sum_by :
      (CalculatedLineItem → Decimal) → Decimal → List CalculatedLineItem → Decimal
  sum_by field sum [] = sum
  sum_by field sum (r ∷ rs) = sum_by field (add sum (field r)) rs

  -- An array, an object with an array of items, or anything else.
  pub data DocumentInput : Type 0 where
    array with_items : List (Option TaxableItemInput) → DocumentInput
    invalid : DocumentInput

  abbrev pub items_of : DocumentInput → M (List (Option TaxableItemInput))
  items_of (array items) = ok items
  items_of (with_items items) = ok items
  items_of invalid = err no_items_list

  abbrev pub is_nil : List (Option TaxableItemInput) → Bool
  is_nil [] = true
  is_nil (_ ∷ _) = false

  -- The summary of the calculated lines.
  unfoldable pub summarize : List CalculatedLineItem → M DocumentTaxSummary
  summarize calculated = do
    let zero' = constant 0 2
    let subtotal = sum_by (λ r. r.subtotal) zero' calculated
    let tax = sum_by (λ r. r.tax) zero' calculated
    let total = sum_by (λ r. r.total) zero' calculated
    throw_if
        (greater_than subtotal max_monetary_amount
          || greater_than tax max_monetary_amount
          || greater_than total max_monetary_amount)
        document_too_large
    ok (record {
      subtotal = subtotal;
      tax = tax;
      total = total;
      items = calculated;
      item_count = length calculated;
    })

  unfoldable pub calculate_document : DocumentInput → M DocumentTaxSummary
  calculate_document input = do
    items ← items_of input
    throw_if (is_nil items) no_items
    calculated ← calculate_items 0 items
    summarize calculated
