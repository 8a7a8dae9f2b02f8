-- ===== src/Tax/Errors.antt =====
-- The item that an error of a document names (src/tax-calculation/tax-calculation.service.ts, the
-- `try` of `calculateDocument`).
use facturify.Base.{
  ℕ, ◌+◌, ◌≡◌, refl, ap, ◌∙◌, Option, arith, inl, inr, List, [], ◌∷◌, ◌++◌, length, All,
}
use facturify.Base.Result.{Result, ok, err, >>=-eq-err}
use facturify.Tax.Decimal.{Decimals}
use facturify.Tax.Service.{
  TaxError, in_item, TaxableItemInput, CalculatedLineItem, calculate_item, named, calculate_items,
}

module _ (D : Decimals) where
  pub named-ok :
      (i : ℕ) (m : Result TaxError (CalculatedLineItem D)) {r : CalculatedLineItem D}
      → named D i m ≡ ok r
      → m ≡ ok r
  named-ok i (ok r) h = h
  named-ok i (err e) h = cc

  named-err :
      (i : ℕ) (m : Result TaxError (CalculatedLineItem D)) {x : TaxError}
      → named D i m ≡ err x
      → (e : TaxError) × (m ≡ err e) × (x ≡ in_item i e)
  named-err i (ok r) h = cc
  named-err i (err e) h = (e, refl, ground arith)

  -- A run of the items that threw has stopped at the first item that fails on its own.
  pub record StopsAt (index : ℕ) (items : List (Option (TaxableItemInput D))) (x : TaxError)
      : Type 0 where
    before : List (Option (TaxableItemInput D))
    item : Option (TaxableItemInput D)
    after : List (Option (TaxableItemInput D))
    cause : TaxError
    split : items ≡ before ++ (item ∷ after)
    passed : All (λ i. (r : CalculatedLineItem D) × (calculate_item D i ≡ ok r)) before
    fails : calculate_item D item ≡ err cause
    names_it : x ≡ in_item (index + length before + 1) cause

  -- If the calculation of the items throws, the exception names the first item that fails, by its
  -- position counted from 1 after the index, with that item's own error; all before it pass.
  pub calculate_items-StopsAt :
      (index : ℕ) (items : List (Option (TaxableItemInput D))) (x : TaxError)
      → calculate_items D index items ≡ err x
      → StopsAt index items x
  unfolding calculate_items
  calculate_items-StopsAt index [] x h = cc
  calculate_items-StopsAt index (item ∷ items) x h =
      elim (>>=-eq-err (named D (index + 1) (calculate_item D item)) _ h) [
        | inl threw ↦
            let (e, fails, same) = named-err (index + 1) (calculate_item D item) threw in
            record {
              before = [];
              item = item;
              after = items;
              cause = e;
              split = refl;
              passed = tt;
              fails = fails;
              names_it = same ∙ ap (λ n. in_item n e) (omega arith);
            }
        | inr (r, one, later) ↦ elim (>>=-eq-err (calculate_items D (index + 1) items) _ later) [
          | inl threw ↦
              let stop = calculate_items-StopsAt (index + 1) items x threw in
              record {
                before = item ∷ stop.before;
                item = stop.item;
                after = stop.after;
                cause = stop.cause;
                split = ap (λ is. item ∷ is) stop.split;
                passed = ((r, named-ok (index + 1) (calculate_item D item) one), stop.passed);
                fails = stop.fails;
                names_it = stop.names_it ∙ ap (λ n. in_item n stop.cause) (omega arith);
              }
          | inr (rs, all, built) ↦ cc
        ]
      ]
