-- ===== src/Catalogs/Tests.antt =====
-- Codes of the catalogues at concrete inputs.
use facturify.Base.{◌≡◌, ◌⊎◌, refl, []}
use facturify.Base.Result.{ok, err}
use facturify.Js.Text.{
  Text, codes, text_eq, includes, is_space, trim_start, trim_end_cons, trim_end, trim,
}
use facturify.Js.Number.{Num}
use facturify.Js.Value.{undefined, string, is_nullish, to_text}
use facturify.Catalogs.{
  document_type, currency, tax_affectation, empty_text, is_valid_code, is_control, collapse_spaces,
  sanitize_catalog_code, assert_valid_code,
}
use facturify.Catalogs.Laws.{IsCode, IsSafe, assert_valid_code-answer}

abbrev no_digits : Num → Text
no_digits x = []

opened : Unit {0}
unfolding text_eq includes is_space trim_start trim_end_cons trim_end trim is_nullish to_text
    is_valid_code is_control collapse_spaces sanitize_catalog_code assert_valid_code
opened = tt

exempt_run : assert_valid_code no_digits tax_affectation (string (codes "20")) ≡ ok tt
unfolding opened
exempt_run = refl

missing_run :
    assert_valid_code no_digits document_type undefined
    ≡ err (record { catalog = document_type; sanitized = empty_text })
unfolding opened
missing_run = refl

lines_run : sanitize_catalog_code no_digits (string (codes " EUR\n  or\tUSD ")) ≡ codes "EUR or USD"
unfolding opened
lines_run = refl

long_run :
    sanitize_catalog_code no_digits (string (codes "0123456789012345678901234567890"))
    ≡ codes "012345678901234567890123456789..."
unfolding opened
long_run = refl

assert_valid_code-answer_example :
    ((assert_valid_code no_digits currency (string (codes "usd")) ≡ ok tt)
      × IsCode currency (string (codes "usd")))
    ⊎ ((s : Text) × (assert_valid_code no_digits currency (string (codes "usd"))
          ≡ err (record { catalog = currency; sanitized = s }))
        × IsSafe s
        × ¬ IsCode currency (string (codes "usd")))
assert_valid_code-answer_example =
    assert_valid_code-answer no_digits currency (string (codes "usd"))
