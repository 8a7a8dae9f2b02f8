-- ===== src/Peru/Series/Laws.antt =====
-- Which series a document of each type may have.
use facturify.Base.{
  ℕ, ◌≡◌, ◌≢◌, ◌↔◌, ◌⊎◌, refl, ap, Bool, true, false, not, Option, none, some, [], ◌∷◌, length, all,
  arith, Bool-cases, inl, inr, if◌then◌else◌,
}
use facturify.Js.Text.{Text, trim, to_upper, is_upper, is_digit}
use facturify.Js.Number.{Num}
use facturify.Js.Value.{Value, string, to_text_or_empty}
use facturify.Peru.{
  Note, series_format, note_series, invoice_series, receipt_series, series, ValidationResult, valid,
  invalid, is_valid,
}
use facturify.Peru.Sanitizer.{sanitize_safe_text}
use facturify.Peru.Series.{
  Kind, invoice, receipt, note, Entry, kind, inherited, absent, document_type_normalization,
  is_series_unit, is_series, is_invoice_series, is_receipt_series, is_note_series, reference_entry,
  judge_note, judge_series, is_absent, validate_series,
}

-- The first letters: F on invoices and on what modifies them, B on receipts likewise.
abbrev pub Letter : Kind → Entry → ℕ → Type 0
Letter invoice reference c = c ≡ b'F'
Letter receipt reference c = c ≡ b'B'
Letter (note _) (kind invoice) c = c ≡ b'F'
Letter (note _) (kind receipt) c = c ≡ b'B'
Letter (note _) _ c = (c ≡ b'F') ⊎ (c ≡ b'B')

-- A first letter that fits, and three more capital letters or digits.
abbrev pub Fits : Kind → Entry → Text → Type 0
Fits k reference [] = ⊥
Fits k reference (c ∷ s) = Letter k reference c × (length s ≡ 3) × (all is_series_unit s ≡ true)

abbrev pub answer : Option ValidationResult → Bool
answer none = false
answer (some r) = is_valid r

-- The letters, over the tests of the code.
invoice_iff :
    (reference : Entry) (s : Text) → (is_invoice_series s ≡ true) ↔ Fits invoice reference s
invoice_iff reference [] = ((λ h. cc), λ h. absurd h)
invoice_iff reference (c ∷ s) = ground arith

receipt_iff :
    (reference : Entry) (s : Text) → (is_receipt_series s ≡ true) ↔ Fits receipt reference s
receipt_iff reference [] = ((λ h. cc), λ h. absurd h)
receipt_iff reference (c ∷ s) = ground arith

note_iff : (which : Note) (s : Text) → (is_note_series s ≡ true) ↔ Fits (note which) absent s
note_iff which [] = ((λ h. cc), λ h. absurd h)
note_iff which (c ∷ s) = ground arith

verdict :
    (b : Bool) (e : ValidationResult)
    → is_valid e ≡ false
    → (is_valid (if not b then e else valid) ≡ true) ↔ (b ≡ true)
unfolding is_valid
verdict true e h = ((λ k. refl), λ k. refl)
verdict false e h = ((λ k. cc), λ k. cc)

both {ℓ κ μ} : {A : Type ℓ} {B : Type κ} {C : Type μ} → A ↔ B → B ↔ C → A ↔ C
both (to, from) (to', from') = ((λ a. to' (to a)), λ c. from (from' c))

either_letter :
    (which : Note) (c : ℕ) (s safe : Text)
    → (is_valid
          (if not (is_note_series (c ∷ s)) then invalid (note_series which safe) series else valid)
        ≡ true)
      ↔ Fits (note which) absent (c ∷ s)
unfolding is_valid
either_letter which c s safe =
    both (verdict (is_note_series (c ∷ s)) (invalid (note_series which safe) series) refl)
      (note_iff which (c ∷ s))

judge_note_iff :
    (which : Note) (reference : Entry) (raw safe : Text)
    → (is_valid (judge_note which reference raw safe) ≡ true) ↔ Fits (note which) reference raw
unfolding judge_note is_valid
judge_note_iff which (kind invoice) [] safe = ((λ h. cc), λ h. absurd h)
judge_note_iff which (kind invoice) (c ∷ s) safe = ground arith
judge_note_iff which (kind receipt) [] safe = ((λ h. cc), λ h. absurd h)
judge_note_iff which (kind receipt) (c ∷ s) safe = ground arith
judge_note_iff which (kind (note k)) [] safe = ((λ h. cc), λ h. absurd h)
judge_note_iff which (kind (note k)) (c ∷ s) safe = either_letter which c s safe
judge_note_iff which inherited [] safe = ((λ h. cc), λ h. absurd h)
judge_note_iff which inherited (c ∷ s) safe = either_letter which c s safe
judge_note_iff which absent [] safe = ((λ h. cc), λ h. absurd h)
judge_note_iff which absent (c ∷ s) safe = either_letter which c s safe

Letter-unit :
    (k : Kind) (reference : Entry) (c : ℕ) → Letter k reference c → is_series_unit c ≡ true
unfolding is_upper is_digit
Letter-unit invoice reference c h = ground (arith, h)
Letter-unit receipt reference c h = ground (arith, h)
Letter-unit (note _) (kind invoice) c h = ground (arith, h)
Letter-unit (note _) (kind receipt) c h = ground (arith, h)
Letter-unit (note _) (kind (note _)) c h = ground (arith, h)
Letter-unit (note _) inherited c h = ground (arith, h)
Letter-unit (note _) absent c h = ground (arith, h)

Fits-is_series : (k : Kind) (reference : Entry) (s : Text) → Fits k reference s → is_series s ≡ true
unfolding is_upper is_digit
Fits-is_series k reference [] h = absurd h
Fits-is_series k reference (c ∷ s) (letter, long, units) =
    let capital : is_series_unit c ≡ true = Letter-unit k reference c letter in
    ground (arith, capital, long, units)

judge_series_iff :
    (k : Kind) (reference : Entry) (raw safe : Text)
    → (answer (judge_series (kind k) reference raw safe) ≡ true) ↔ Fits k reference raw
unfolding judge_series is_valid
judge_series_iff invoice reference raw safe =
    both (verdict (is_invoice_series raw) (invalid (invoice_series safe) series) refl)
      (invoice_iff reference raw)
judge_series_iff receipt reference raw safe =
    both (verdict (is_receipt_series raw) (invalid (receipt_series safe) series) refl)
      (receipt_iff reference raw)
judge_series_iff (note which) reference raw safe = judge_note_iff which reference raw safe

kind-inj : (k x : Kind) → kind k ≡ kind x → k ≡ x
kind-inj k x same = ap (λ e. elim e [ kind y ↦ y | _ ↦ k ]) same

defined :
    (k : Kind) (reference : Entry) (raw safe : Text)
    → judge_series (kind k) reference raw safe ≢ none
unfolding judge_series
defined invoice reference raw safe h = cc
defined receipt reference raw safe h = cc
defined (note _) reference raw safe h = cc

-- The tests of `validateSeries`, for any entry of the table.
tested_iff :
    (entry reference : Entry) (raw safe : Text) (e f : ValidationResult)
    → is_valid e ≡ false
    → is_valid f ≡ false
    → (answer (
          if is_absent entry
          then some e
          else if not (is_series raw)
          then some f
          else judge_series entry reference raw safe)
        ≡ true)
      ↔ ((k : Kind) × (entry ≡ kind k) × Fits k reference raw)
unfolding judge_series
tested_iff absent reference raw safe e f h h' = ((λ k. cc), λ (k, same, _). cc)
tested_iff inherited reference raw safe e f h h' = (
  (λ k. elim (Bool-cases (is_series raw)) [
    | inl shape ↦ let no : false ≡ true = rw shape at k in cc
    | inr other ↦ let no : is_valid f ≡ true = rw other at k in cc
  ]),
  λ (k, same, _). cc,
)
tested_iff (kind k) reference raw safe e f h h' =
    let (to, from) = judge_series_iff k reference raw safe in
    (
      (λ v. elim (Bool-cases (is_series raw)) [
        | inl shape ↦ (k, refl, to (rw shape at v))
        | inr other ↦ let no : is_valid f ≡ true = rw other at v in cc
      ]),
      λ (x, same, fits).
          let again : Fits k reference raw = rw (← kind-inj k x same) at fits in
          rw (Fits-is_series k reference raw again) (from again),
    )

tested-undefined :
    (entry reference : Entry) (raw safe : Text) (e f : ValidationResult)
    → ((if is_absent entry
          then some e
          else if not (is_series raw)
          then some f
          else judge_series entry reference raw safe)
        ≡ none)
      ↔ ((entry ≡ inherited) × (is_series raw ≡ true))
unfolding judge_series
tested-undefined absent reference raw safe e f = ((λ k. cc), λ (same, _). cc)
tested-undefined inherited reference raw safe e f = (
  (λ k. elim (Bool-cases (is_series raw)) [
    | inl shape ↦ (refl, shape)
    | inr other ↦ let no : some f ≡ none = rw other at k in cc
  ]),
  λ (_, shape). rw shape refl,
)
tested-undefined (kind k) reference raw safe e f = (
  (λ v. elim (Bool-cases (is_series raw)) [
    | inl shape ↦ absurd (defined k reference raw safe (rw shape at v))
    | inr other ↦ let no : some f ≡ none = rw other at v in cc
  ]),
  λ (same, _). cc,
)

-- A series is accepted exactly if its document's type is one of the table, and the series, trimmed
-- and in capitals, is a letter and three capital letters or digits: F for an invoice, B for a receipt,
-- and for a note F or B, or the letter of the invoice or receipt that it is said to refer to.
pub validate_series_iff :
    (show : Num → Text) (wide : Text → Text) (document_type given reference : Value)
    → (answer (validate_series show wide document_type given reference) ≡ true) ↔ (
        (k : Kind) × (document_type_normalization (trim (to_text_or_empty show document_type))
          ≡ kind k)
        × Fits k
            (reference_entry show reference)
            (to_upper wide (trim (to_text_or_empty show given))))
unfolding validate_series is_valid
validate_series_iff show wide document_type given reference = tested_iff _ _ _ _ _ _ refl refl

-- The validation of a series yields `undefined`, no result, exactly if the document's type is the name
-- of a member that every object inherits and the series has four capital letters or digits.
pub validate_series-undefined :
    (show : Num → Text) (wide : Text → Text) (document_type given reference : Value)
    → (validate_series show wide document_type given reference ≡ none) ↔ (
        (document_type_normalization (trim (to_text_or_empty show document_type)) ≡ inherited)
        × (is_series (to_upper wide (trim (to_text_or_empty show given))) ≡ true))
unfolding validate_series
validate_series-undefined show wide document_type given reference =
    let raw = to_upper wide (trim (to_text_or_empty show given)) in
    let safe = sanitize_safe_text show (string raw) in
    tested-undefined _ (reference_entry show reference) raw safe _
      (invalid (series_format safe) series)
