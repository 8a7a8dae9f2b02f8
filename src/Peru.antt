-- ===== src/Peru.antt =====
-- Peruvian identity documents, series and currencies: src/peru-validation. The digits of a number
-- that is given for a text, and `toUpperCase` outside ASCII, are arguments.
pub mod Sanitizer
pub mod Ruc
pub mod Identity
pub mod Series
mod Tests
use facturify.Base.{Bool, true, false, if◌then◌else◌, ◌&&◌, ◌==◌, ℕ, all, length}
use facturify.Base.Result.{Result, ok, err, throw_if}
use facturify.Js.Text.{Text, codes, trim, is_digit}
use facturify.Js.Number.{Num}
use facturify.Js.Value.{Value, undefined, null, boolean, number, string, other}

pub data Note : Type 0 where
  credit_note debit_note : Note

-- The messages, with the texts that are put in them.
pub data PeruError : Type 0 where
  ruc_format ruc_prefix ruc_check_digit dni_format dni_sequence unknown_identity_type :
      Text → PeruError
  carnet_format passport_format cedula_format other_document_format : Text → PeruError
  unknown_document_type series_format invoice_series receipt_series unknown_currency :
      Text → PeruError
  note_of_invoice note_of_receipt note_series : Note → Text → PeruError

pub data Field : Type 0 where
  customer_document_number customer_document_type series currency : Field

pub data ValidationResult : Type 0 where
  valid : ValidationResult
  invalid : PeruError → Field → ValidationResult

unfoldable pub is_valid : ValidationResult → Bool
is_valid valid = true
is_valid (invalid _ _) = false

-- `if (!res.isValid) throw new BadRequestException(res.error)`
unfoldable pub assert_result : ValidationResult → Result PeruError (Unit {0})
assert_result valid = ok tt
assert_result (invalid e _) = err e

-- `typeof v === 'string' || typeof v === 'number' ? String(v).trim() : ''`
unfoldable pub raw_text : (Num → Text) → Value → Text
unfolding trim
raw_text show (string s) = trim s
raw_text show (number x) = trim (show x)
raw_text show _ = codes ""

-- `^\d{n}$`
unfoldable pub is_digits : ℕ → Text → Bool
unfolding is_digit
is_digits n s = length s == n && all is_digit s
