-- ===== src/Tax/Line.antt =====
-- The amounts of a calculated line, as whole numbers of cents.
use facturify.Base.{
  ℕ, ◌+◌, ◌*◌, ◌/◌, ◌≤◌, ◌<◌, ◌≡◌, true, false, Option, none, some, arith, ltb, Bool-cases, inl,
  inr,
}
use facturify.Base.Result.{Result, ok, err, >>=-eq-ok, throw_if-eq-ok}
use facturify.Js.Text.{Text}
use facturify.Tax.Decimal.{Decimals, DecimalLaws, precision, Rounded}
use facturify.Tax.Service.{
  Label, quantity_field, unit_price_field, TaxError, labelled, Input, TaxableItemInput,
  CalculatedLineItem, constructed, construct, check_input, parse_decimal, validate_decimal_places,
  parse_positive, parse_quantity, parse_unit_price, max_quantity, max_unit_price,
  max_monetary_amount, igv_rate, igv_factor, calculate_amounts, calculate_item,
}

pub Rounded-exact : (exact r : ℕ) → Rounded exact r → r < precision → r ≡ exact
Rounded-exact exact r (below, above) h = elim (Bool-cases (ltb exact precision)) [
  | inl small ↦ below (ground arith)
  | inr large ↦ let big : precision ≤ exact = ground arith in absurd (omega (arith, above big))
]

labelled-ok {ℓ} :
    {A : Type ℓ} (field : Label) (m : Result TaxError A) {a : A}
    → labelled field m ≡ ok a
    → m ≡ ok a
labelled-ok field (ok b) h = h
labelled-ok field (err e) h = cc

-- The largest amount, in cents.
abbrev pub max_cents : ℕ
max_cents = 99999999999999

-- The subtotal and the tax of a line in cents, from its quantity in ten-thousandths and its unit
-- price in cents: half a cent rounds up.
abbrev pub line_subtotal : ℕ → ℕ → ℕ
line_subtotal q p = (q * p + 5000) / 10000

abbrev pub tax_on : ℕ → ℕ
tax_on s = (s * 18 + 50) / 100

module _ (D : Decimals) (L : DecimalLaws D) where
  open D use {Decimal}
  open L use {At}

  -- A value that was read as a positive number of up to some places and up to a limit.
  -- The value is read by the package as a number of so many units of these places.
  abbrev Denotes : Input D → ℕ → ℕ → Type 0
  Denotes v places n = (d : Decimal) × (construct D v ≡ some d) × At d places n

  -- The item's quantity is q ten-thousandths, and its unit price p cents.
  abbrev pub Asks : Option (TaxableItemInput D) → ℕ → ℕ → Type 0
  Asks none q p = ⊥
  Asks (some item) q p = Denotes item.quantity 4 q × Denotes item.unit_price 2 p

  constructed-same : (o : Option Decimal) {d : Decimal} → constructed D o ≡ ok d → o ≡ some d
  constructed-same none h = cc
  constructed-same (some d) h = ground arith

  parse_decimal-same :
      (v : Input D) {d : Decimal} → parse_decimal D v ≡ ok d → construct D v ≡ some d
  unfolding parse_decimal
  parse_decimal-same v h =
      let (u, checked, e) = >>=-eq-ok (check_input D v) _ h in constructed-same (construct D v) e

  constructed-finite :
      (o : Option Decimal) {d : Decimal} → constructed D o ≡ ok d → D.is_finite d ≡ true
  constructed-finite none h = cc
  constructed-finite (some d) h = ground arith

  parse_decimal-finite :
      (v : Input D) {d : Decimal} → parse_decimal D v ≡ ok d → D.is_finite d ≡ true
  unfolding parse_decimal
  parse_decimal-finite v h =
      let (u, checked, e) = >>=-eq-ok (check_input D v) _ h in constructed-finite (construct D v) e

  -- What a value that `parsePositive` returned has passed.
  record Passed (places : ℕ) (limit d : Decimal) (v : Input D) : Type 0 where
    same : construct D v ≡ some d
    finite : D.is_finite d ≡ true
    positive : D.at_most_zero d ≡ false
    short : D.decimal_places d ≤ places
    capped : D.greater_than d limit ≡ false

  parse_positive-Passed :
      (places : ℕ) (limit : Decimal) (v : Input D) {d : Decimal}
      → parse_positive D places limit v ≡ ok d
      → Passed places limit d v
  unfolding parse_positive validate_decimal_places
  parse_positive-Passed places limit v {d} h =
      let (c, read, e) = >>=-eq-ok (parse_decimal D v) _ h in
      let (positive, e₁) = throw_if-eq-ok (D.at_most_zero c) _ _ e in
      let (u, short, e₂) = >>=-eq-ok (validate_decimal_places D v c places) _ e₁ in
      let (few, e₃) = throw_if-eq-ok (ltb places (D.decimal_places c)) _ _ short in
      let (capped, e₄) = throw_if-eq-ok (D.greater_than c limit) _ _ e₂ in
      let same : c ≡ d = ground arith in
      let passed : Passed places limit c v = record {
        same = parse_decimal-same v read;
        finite = parse_decimal-finite v read;
        positive = positive;
        short = ground arith;
        capped = capped;
      } in
      rw same at passed

  parse_quantity-At :
      (v : Input D) {d : Decimal}
      → parse_quantity D v ≡ ok d
      → (q : ℕ) × (0 < q) × At d 4 q × Denotes v 4 q
  unfolding parse_quantity
  parse_quantity-At v {d} h =
      let passed = parse_positive-Passed 4 (max_quantity D) v (labelled-ok quantity_field _ h) in
      let (q, pos, at) = L.places_4 d passed.finite passed.positive passed.short in
      (q, pos, at, (d, passed.same, at))

  parse_unit_price-At :
      (v : Input D) {d : Decimal}
      → parse_unit_price D v ≡ ok d
      → (p : ℕ) × (0 < p) × At d 2 p × (p ≤ max_cents) × Denotes v 2 p
  unfolding parse_unit_price
  parse_unit_price-At v {d} h =
      let passed =
        parse_positive-Passed 2 (max_unit_price D) v (labelled-ok unit_price_field _ h) in
      let (p, pos, at) = L.places_2 d passed.finite passed.positive passed.short in
      let tested = L.greater_than_2 d (max_unit_price D) p max_cents at (L.constant_at max_cents) in
      (p, pos, at, ground (arith, tested, passed.capped), (d, passed.same, at))

  -- A line whose quantity is q ten-thousandths and whose unit price is p cents.
  pub record IsLine (q p : ℕ) (r : CalculatedLineItem D) : Type 0 where
    pub quantity : At r.quantity 4 q
    pub unit_price : At r.unit_price 2 p
    pub subtotal : At r.subtotal 2 (line_subtotal q p)
    pub tax : At r.tax 2 (tax_on (line_subtotal q p))
    pub total : At r.total 2 (line_subtotal q p + tax_on (line_subtotal q p))
    pub with_tax : At r.unit_price_with_tax 2 ((p * 118 + 50) / 100)
    pub capped : line_subtotal q p + tax_on (line_subtotal q p) ≤ max_cents

  -- An amount that the limit let through.
  pub money-capped :
      (d : Decimal) (n : ℕ)
      → At d 2 n
      → D.greater_than d (max_monetary_amount D) ≡ false
      → n ≤ max_cents
  money-capped d n at h =
      let tested =
        L.greater_than_2 d (max_monetary_amount D) n max_cents at (L.constant_at max_cents) in
      ground (arith, tested, h)

  product-exact :
      (m n : ℕ) (d e : Decimal)
      → At d 4 m
      → At e 2 n
      → D.greater_than (D.to_money (D.mul d e)) (max_monetary_amount D) ≡ false
      → At (D.to_money (D.mul d e)) 2 (line_subtotal m n) × (line_subtotal m n ≤ max_cents)
  product-exact m n d e at_d at_e h =
      let (r, at, rounded) = L.mul_4_2 d e m n at_d at_e in
      let money = L.to_money_6 (D.mul d e) r at in
      let capped = money-capped (D.to_money (D.mul d e)) ((r + 5000) / 10000) money h in
      let exact = Rounded-exact (m * n) r rounded (omega (arith, capped)) in
      (rw exact at money, rw exact at capped)

  percent-exact :
      (n rate : ℕ) (d e : Decimal)
      → At d 2 n
      → At e 2 rate
      → n ≤ max_cents
      → rate ≤ 1000
      → At (D.to_money (D.mul d e)) 2 ((n * rate + 50) / 100)
  percent-exact n rate d e at_d at_e h k =
      let (r, at, rounded) = L.mul_2_2 d e n rate at_d at_e in
      let small : n * rate ≤ 99999999999999 * 1000 = grind arith in
      let exact : r ≡ n * rate = rounded.0 (omega (arith, small)) in
      rw exact at (L.to_money_4 (D.mul d e) r at)

  sum-exact :
      (m n : ℕ) (d e : Decimal)
      → At d 2 m
      → At e 2 n
      → m ≤ max_cents
      → n ≤ max_cents
      → At (D.add d e) 2 (m + n)
  sum-exact m n d e at_d at_e h k =
      let (r, at, rounded) = L.add_2 d e m n at_d at_e in
      let exact : r ≡ m + n = rounded.0 (omega arith) in rw exact at at

  -- The line that `calculate_amounts` builds where both limits let it through.
  abbrev line : Option Text → Decimal → Decimal → CalculatedLineItem D
  line description quantity unit_price =
      let subtotal = D.to_money (D.mul quantity unit_price) in
      let tax = D.to_money (D.mul subtotal (igv_rate D)) in
      record {
        description = description;
        quantity = quantity;
        unit_price = unit_price;
        unit_price_with_tax = D.to_money (D.mul unit_price (igv_factor D));
        subtotal = subtotal;
        tax = tax;
        total = D.add subtotal tax;
      }

  line-IsLine :
      (description : Option Text) (quantity unit_price : Decimal) (q p : ℕ)
      → At quantity 4 q
      → At unit_price 2 p
      → p ≤ max_cents
      → D.greater_than (D.to_money (D.mul quantity unit_price)) (max_monetary_amount D) ≡ false
      → D.greater_than (line description quantity unit_price).total (max_monetary_amount D) ≡ false
      → IsLine q p (line description quantity unit_price)
  line-IsLine description quantity unit_price q p at_q at_p small h k =
      let r = line description quantity unit_price in
      let (sub, sub_capped) = product-exact q p quantity unit_price at_q at_p h in
      let tax =
        percent-exact (line_subtotal q p) 18 r.subtotal (igv_rate D) sub (L.constant_at 18)
          sub_capped (omega arith) in
      let tax_capped : tax_on (line_subtotal q p) ≤ max_cents = omega (arith, sub_capped) in
      let total =
        sum-exact (line_subtotal q p) (tax_on (line_subtotal q p)) r.subtotal r.tax sub tax
          sub_capped tax_capped in
      record {
        quantity = at_q;
        unit_price = at_p;
        subtotal = sub;
        tax = tax;
        total = total;
        with_tax =
            percent-exact p 118 unit_price (igv_factor D) at_p (L.constant_at 118) small
              (omega arith);
        capped = money-capped r.total (line_subtotal q p + tax_on (line_subtotal q p)) total k;
      }

  calculate_amounts-IsLine :
      (description : Option Text) (quantity unit_price : Decimal) (q p : ℕ)
      {r : CalculatedLineItem D}
      → At quantity 4 q
      → At unit_price 2 p
      → p ≤ max_cents
      → calculate_amounts D description quantity unit_price ≡ ok r
      → IsLine q p r
  unfolding calculate_amounts
  calculate_amounts-IsLine description quantity unit_price q p {r} at_q at_p small h =
      let (sub, e) =
        throw_if-eq-ok
          (D.greater_than (D.to_money (D.mul quantity unit_price)) (max_monetary_amount D)) _ _ h in
      let (total, e₁) =
        throw_if-eq-ok
          (D.greater_than (line description quantity unit_price).total (max_monetary_amount D)) _ _
          e in
      let same : line description quantity unit_price ≡ r = ground arith in
      rw same at (line-IsLine description quantity unit_price q p at_q at_p small sub total)

  -- A calculated line is what the rules of SUNAT ask for, with the quantity and the unit price that the package
  -- reads in the item's own fields, both above 0: the subtotal is quantity by unit price
  -- rounded half up to cents, the tax 18% of that rounded likewise, the total their exact sum within
  -- the limit, and the unit price with tax 118% of the unit price. Assumed are the laws of decimals.
  pub calculate_item-IsLine :
      (item : Option (TaxableItemInput D)) (r : CalculatedLineItem D)
      → calculate_item D item ≡ ok r
      → (q : ℕ) × (p : ℕ) × (0 < q) × (0 < p) × Asks item q p × IsLine q p r
  unfolding calculate_item
  calculate_item-IsLine none r h = cc
  calculate_item-IsLine (some item) r h =
      let (quantity, read_q, e) = >>=-eq-ok (parse_quantity D item.quantity) _ h in
      let (unit_price, read_p, e₁) = >>=-eq-ok (parse_unit_price D item.unit_price) _ e in
      let (q, pos_q, at_q, asks_q) = parse_quantity-At item.quantity read_q in
      let (p, pos_p, at_p, small, asks_p) = parse_unit_price-At item.unit_price read_p in
      (
        q,
        p,
        pos_q,
        pos_p,
        (asks_q, asks_p),
        calculate_amounts-IsLine item.description quantity unit_price q p at_q at_p small e₁,
      )
