-- ===== src/Tax/Document.antt =====
-- The totals of a document (src/tax-calculation/tax-calculation.service.ts, `calculateDocument`).
use facturify.Base.{
  ℕ, suc, ◌+◌, ◌*◌, ◌≤◌, ◌<◌, ◌≡◌, refl, ap, ◌∙◌, Bool, false, ◌||◌, Option, arith, ltb, Bool-cases,
  inl, inr, List, [], ◌∷◌, length, subst,
}
use facturify.Base.Result.{ok, >>=-eq-ok, throw_if-eq-ok}
use facturify.Tax.Decimal.{Decimals, DecimalLaws, precision, Rounded}
use facturify.Tax.Service.{
  TaxableItemInput, CalculatedLineItem, DocumentTaxSummary, DocumentInput, max_monetary_amount,
  calculate_item, named, calculate_items, sum_by, items_of, is_nil, summarize, calculate_document,
}
use facturify.Tax.Errors.{named-ok}
use facturify.Tax.Line.{
  Rounded-exact, max_cents, line_subtotal, tax_on, Asks, IsLine, money-capped,
  calculate_item-IsLine,
}

-- The quantity in ten-thousandths and the unit price in cents of each line.
abbrev pub Lines : Type 0
Lines = List (ℕ × ℕ)

abbrev pub sum_cents : (ℕ → ℕ → ℕ) → Lines → ℕ
sum_cents f [] = 0
sum_cents f ((q, p) ∷ ls) = f q p + sum_cents f ls

abbrev pub line_tax : ℕ → ℕ → ℕ
line_tax q p = tax_on (line_subtotal q p)

abbrev pub line_total : ℕ → ℕ → ℕ
line_total q p = line_subtotal q p + line_tax q p

sum_cents-total :
    (ls : Lines) → sum_cents line_total ls ≡ sum_cents line_subtotal ls + sum_cents line_tax ls
sum_cents-total [] = omega arith
sum_cents-total ((q, p) ∷ ls) = omega (arith, sum_cents-total ls)

-- The tax summed over the lines, against 18% of the summed subtotals, in hundredths of cents.
tax-near :
    (ls : Lines)
    → (100 * sum_cents line_tax ls ≤ 18 * sum_cents line_subtotal ls + 50 * length ls)
      × (18 * sum_cents line_subtotal ls ≤ 100 * sum_cents line_tax ls + 50 * length ls)
tax-near [] = omega arith
tax-near ((q, p) ∷ ls) = omega (arith, tax-near ls)

-- Rounding to the precision, over a running sum.
Rounded-add : (exact m n r : ℕ) → Rounded exact m → Rounded (m + n) r → Rounded (exact + n) r
Rounded-add exact m n r (below, above) (below', above') = elim (Bool-cases (ltb exact precision)) [
  | inl small ↦
      let same : m ≡ exact = below (ground arith) in
      (
        (λ h. let e : r ≡ m + n = below' (omega (arith, same)) in omega (arith, e, same)),
        λ h. above' (omega (arith, same)),
      )
  | inr large ↦
      let big : precision ≤ m = above (ground arith) in
      let past : precision ≤ exact = ground arith in
      ((λ h. absurd (omega (arith, past))), λ h. above' (omega (arith, big)))
]

module _ (D : Decimals) (L : DecimalLaws D) where
  open D use {Decimal}
  open L use {At}

  abbrev pub AreLines : Lines → List (CalculatedLineItem D) → Type 0
  AreLines [] [] = Unit
  AreLines ((q, p) ∷ ls) (r ∷ rs) = IsLine D L q p r × AreLines ls rs
  AreLines _ _ = ⊥

  -- The items have these quantities and unit prices, in their order.
  abbrev pub AreAsked : Lines → List (Option (TaxableItemInput D)) → Type 0
  AreAsked [] [] = Unit
  AreAsked ((q, p) ∷ ls) (item ∷ items) = Asks D L item q p × AreAsked ls items
  AreAsked _ _ = ⊥

  module _ (field : CalculatedLineItem D → Decimal) (cents : ℕ → ℕ → ℕ)
      (field_at : (q p : ℕ) (r : CalculatedLineItem D)
        → IsLine D L q p r
        → At (field r) 2 (cents q p)) where
    sum_by-At :
        (ls : Lines) (rs : List (CalculatedLineItem D)) (d : Decimal) (exact m : ℕ)
        → AreLines ls rs
        → At d 2 m
        → Rounded exact m
        → (r : ℕ) × At (sum_by D field d rs) 2 r × Rounded (exact + sum_cents cents ls) r
    unfolding sum_by
    sum_by-At [] [] d exact m a at h =
        let same : exact ≡ exact + 0 = omega arith in (m, at, rw same at h)
    sum_by-At [] (r ∷ rs) d exact m a at h = absurd a
    sum_by-At ((q, p) ∷ ls) [] d exact m a at h = absurd a
    sum_by-At ((q, p) ∷ ls) (r ∷ rs) d exact m (a, as') at h =
        let (s, at_s, rounded) = L.add_2 d (field r) m (cents q p) at (field_at q p r a) in
        let (t, at_t, rounded') =
          sum_by-At ls rs (D.add d (field r)) (exact + cents q p) s as' at_s
            (Rounded-add exact m (cents q p) s h rounded) in
        let same : exact + cents q p + sum_cents cents ls
            ≡ exact + (cents q p + sum_cents cents ls) =
          omega arith in
        (t, at_t, rw same at rounded')

    sum_by-exact :
        (ls : Lines) (rs : List (CalculatedLineItem D))
        → AreLines ls rs
        → D.greater_than (sum_by D field (D.constant 0 2) rs) (max_monetary_amount D) ≡ false
        → At (sum_by D field (D.constant 0 2) rs) 2 (sum_cents cents ls)
          × (sum_cents cents ls ≤ max_cents)
    sum_by-exact ls rs a h =
        let (r, at, rounded) =
          sum_by-At ls rs (D.constant 0 2) 0 0 a (L.constant_at 0) ((λ _. refl), λ big. big) in
        let capped = money-capped D L (sum_by D field (D.constant 0 2) rs) r at h in
        let exact : r ≡ sum_cents cents ls =
          Rounded-exact (0 + sum_cents cents ls) r rounded (omega (arith, capped)) ∙ omega arith in
        (rw exact at at, rw exact at capped)

  -- A summary of lines with these quantities and unit prices.
  pub record IsSummary (ls : Lines) (s : DocumentTaxSummary D) : Type 0 where
    pub lines : AreLines ls s.items
    pub item_count : s.item_count ≡ length ls
    pub subtotal : At s.subtotal 2 (sum_cents line_subtotal ls)
    pub tax : At s.tax 2 (sum_cents line_tax ls)
    pub total : At s.total 2 (sum_cents line_subtotal ls + sum_cents line_tax ls)
    pub capped : sum_cents line_subtotal ls + sum_cents line_tax ls ≤ max_cents

  length-AreLines :
      (ls : Lines) (rs : List (CalculatedLineItem D)) → AreLines ls rs → length rs ≡ length ls
  length-AreLines [] [] a = refl
  length-AreLines [] (r ∷ rs) a = absurd a
  length-AreLines (l ∷ ls) [] a = absurd a
  length-AreLines ((q, p) ∷ ls) (r ∷ rs) (a, as') = ap suc (length-AreLines ls rs as')

  abbrev zero_money : Decimal
  zero_money = D.constant 0 2

  or-false : (a b c : Bool) → (a || b || c) ≡ false → (a ≡ false) × (b ≡ false) × (c ≡ false)
  or-false a b c h = ground arith

  summarize-IsSummary :
      (ls : Lines) (rs : List (CalculatedLineItem D)) (s : DocumentTaxSummary D)
      → AreLines ls rs
      → summarize D rs ≡ ok s
      → IsSummary ls s
  unfolding summarize
  summarize-IsSummary ls rs s a h =
      let (small, e) = throw_if-eq-ok _ _ _ h in
      let (sub_small, tax_small, total_small) = or-false _ _ _ small in
      let (sub, _) =
        sum_by-exact (λ r. r.subtotal) line_subtotal (λ q p r l. l.subtotal) ls rs a sub_small in
      let (tax, _) = sum_by-exact (λ r. r.tax) line_tax (λ q p r l. l.tax) ls rs a tax_small in
      let (total, capped) =
        sum_by-exact (λ r. r.total) line_total (λ q p r l. l.total) ls rs a total_small in
      let same = sum_cents-total ls in
      let it : DocumentTaxSummary D = record {
        subtotal = sum_by D (λ r. r.subtotal) zero_money rs;
        tax = sum_by D (λ r. r.tax) zero_money rs;
        total = sum_by D (λ r. r.total) zero_money rs;
        items = rs;
        item_count = length rs;
      } in
      let is : it ≡ s = ground arith in
      let summary : IsSummary ls it = record {
        lines = a;
        item_count = length-AreLines ls rs a;
        subtotal = sub;
        tax = tax;
        total = rw same at total;
        capped = rw same at capped;
      } in
      rw is at summary

  AreLines-cons :
      (q p : ℕ) (ls : Lines) {c : CalculatedLineItem D} {cs rs : List (CalculatedLineItem D)}
      → IsLine D L q p c
      → AreLines ls cs
      → c ∷ cs ≡ rs
      → AreLines ((q, p) ∷ ls) rs
  AreLines-cons q p ls is are same = subst (λ rs. AreLines ((q, p) ∷ ls) rs) same (is, are)

  not-nil : (items : List (Option (TaxableItemInput D))) → is_nil D items ≡ false → 0 < length items
  not-nil [] h = cc
  not-nil (_ ∷ items) h = omega arith

  calculate_items-AreLines :
      (index : ℕ) (items : List (Option (TaxableItemInput D))) (rs : List (CalculatedLineItem D))
      → calculate_items D index items ≡ ok rs
      → (ls : Lines) × AreLines ls rs × (length ls ≡ length items) × AreAsked ls items
  unfolding calculate_items
  calculate_items-AreLines index [] [] h = ([], tt, refl, tt)
  calculate_items-AreLines index [] (r ∷ rs) h = cc
  calculate_items-AreLines index (item ∷ items) rs h =
      let (c, one, e) = >>=-eq-ok (named D (index + 1) (calculate_item D item)) _ h in
      let (cs, rest, e₁) = >>=-eq-ok (calculate_items D (index + 1) items) _ e in
      let (q, p, _, _, asks, is) =
        calculate_item-IsLine D L item c (named-ok D (index + 1) _ one) in
      let (ls, are, same, asked) = calculate_items-AreLines (index + 1) items cs rest in
      let whole : c ∷ cs ≡ rs = ground arith in
      ((q, p) ∷ ls, AreLines-cons q p ls is are whole, grind (arith, same), (asks, asked))

  calculate_document-ok :
      (input : DocumentInput D) (s : DocumentTaxSummary D)
      → calculate_document D input ≡ ok s
      → (items : List (Option (TaxableItemInput D))) × (ls : Lines) × (items_of D input ≡ ok items)
        × (0 < length ls)
        × (length ls ≡ length items)
        × AreAsked ls items
        × IsSummary ls s
  unfolding calculate_document
  calculate_document-ok input s h =
      let (items, given, e) = >>=-eq-ok (items_of D input) _ h in
      let (some_item, e₁) = throw_if-eq-ok (is_nil D items) _ _ e in
      let (rs, all, e₂) = >>=-eq-ok (calculate_items D 0 items) _ e₁ in
      let (ls, are, same, asked) = calculate_items-AreLines 0 items rs all in
      (
        items,
        ls,
        given,
        omega (arith, not-nil items some_item, same),
        same,
        asked,
        summarize-IsSummary ls rs s are e₂,
      )

  -- A document's summary adds up: from the quantities and the unit prices of its lines, at least one,
  -- which are what the package reads in the items given, one line for each in their order, every line is what the rules ask for, the subtotal and the tax
  -- are the exact sums over the lines, and the total, within the limit, is the exact sum of both; the
  -- tax is within half a cent for each line of 18% of the subtotal. Assumed are the laws of decimals.
  pub calculate_document-IsSummary :
      (input : DocumentInput D) (s : DocumentTaxSummary D)
      → calculate_document D input ≡ ok s
      → (items : List (Option (TaxableItemInput D))) × (ls : Lines) × (items_of D input ≡ ok items)
        × (0 < length ls)
        × (length ls ≡ length items)
        × AreAsked ls items
        × IsSummary ls s
        × (100 * sum_cents line_tax ls ≤ 18 * sum_cents line_subtotal ls + 50 * s.item_count)
        × (18 * sum_cents line_subtotal ls ≤ 100 * sum_cents line_tax ls + 50 * s.item_count)
  calculate_document-IsSummary input s h =
      let (items, ls, given, positive, same, asked, is) = calculate_document-ok input s h in
      let near = tax-near ls in
      (
        items,
        ls,
        given,
        positive,
        same,
        asked,
        is,
        omega (arith, near, is.item_count),
        omega (arith, near, is.item_count),
      )
