-- ===== src/Peru/Identity/Laws.antt =====
-- What every accepted identity document is made of.
use facturify.Base.{
  ℕ, ◌≤◌, ◌≡◌, refl, Bool, true, false, some, List, [], ◌∷◌, length, all, arith, Bool-cases,
  Option-cases, inl, inr, if◌then◌else◌,
}
use facturify.Js.Text.{Text, trim, is_digit, is_alnum, text_eq}
use facturify.Js.Text.Laws.{eq_of_text_eq}
use facturify.Js.Text.Trim.{trim_idem}
use facturify.Js.Number.{Num}
use facturify.Js.Value.{Value, string, to_text_or_empty}
use facturify.Peru.{ValidationResult, valid, is_valid, is_digits, raw_text}
use facturify.Peru.Ruc.{validate_ruc}
use facturify.Peru.Ruc.Laws.{validate_ruc_iff, is_digits_iff}
use facturify.Peru.Identity.{
  IdentityDocumentType, no_domiciliado, dni, carnet_extranjeria, ruc, pasaporte, cedula_diplomatica,
  doc_ident_pais_residencia, identity_code, identity_types, find_identity_type, validate_dni,
  is_alnum_dash, is_other_unit, matches_range, judge_identity, validate_identity_document,
}

all-weaken :
    (p q : ℕ → Bool)
    → ((c : ℕ) → p c ≡ true → q c ≡ true)
    → (s : Text) → all p s ≡ true
    → all q s ≡ true
all-weaken p q f [] h = refl
all-weaken p q f (c ∷ s) h =
    let head : p c ≡ true = ground (arith, h) in
    let tail : all p s ≡ true = ground (arith, h) in rw (f c head, all-weaken p q f s tail) refl

-- The lengths that a type allows, and the characters that any type allows.
abbrev pub shortest : IdentityDocumentType → ℕ
shortest ruc = 11
shortest dni = 8
shortest carnet_extranjeria = 4
shortest pasaporte = 4
shortest cedula_diplomatica = 4
shortest _ = 1

abbrev pub longest : IdentityDocumentType → ℕ
longest ruc = 11
longest dni = 8
longest carnet_extranjeria = 12
longest pasaporte = 12
longest _ = 15

pub record IsNumber (t : IdentityDocumentType) (s : Text) : Type 0 where
  pub long : shortest t ≤ length s
  pub short : length s ≤ longest t
  pub characters : all is_other_unit s ≡ true

digit-other : (c : ℕ) → is_digit c ≡ true → is_other_unit c ≡ true
unfolding is_digit is_alnum
digit-other c h = ground (arith, h)

dash-other : (c : ℕ) → is_alnum_dash c ≡ true → is_other_unit c ≡ true
dash-other c h = ground (arith, h)

range-parts :
    (p : ℕ → Bool) (low high : ℕ) (s : Text)
    → matches_range p low high s ≡ true
    → (low ≤ length s) × (length s ≤ high) × (all p s ≡ true)
range-parts p low high s h = ground (arith, h)

of_ruc :
    (show : Num → Text) (s : Text)
    → trim s ≡ s
    → is_valid (validate_ruc show (string s)) ≡ true
    → IsNumber ruc s
unfolding raw_text
of_ruc show s trimmed h =
    let it = rw trimmed at ((validate_ruc_iff show (string s)).0 h) in
    record {
      long = omega (arith, it.eleven);
      short = omega (arith, it.eleven);
      characters = all-weaken is_digit is_other_unit digit-other s it.digits;
    }

dni-digits :
    (show : Num → Text) (v : Value)
    → is_valid (validate_dni show v) ≡ true
    → is_digits 8 (raw_text show v) ≡ true
unfolding validate_dni is_valid
dni-digits show v h = elim (Bool-cases (is_digits 8 (raw_text show v))) [
  | inl e ↦ e
  | inr e ↦ let no : false ≡ true = rw (e, is_valid) at h in cc
]

of_dni :
    (show : Num → Text) (s : Text)
    → trim s ≡ s
    → is_valid (validate_dni show (string s)) ≡ true
    → IsNumber dni s
unfolding raw_text
of_dni show s trimmed h =
    let (eight, digits) = (is_digits_iff 8 s).0 (rw trimmed at (dni-digits show (string s) h)) in
    record {
      long = omega (arith, eight);
      short = omega (arith, eight);
      characters = all-weaken is_digit is_other_unit digit-other s digits;
    }

of_range :
    (p : ℕ → Bool) (low high : ℕ) (s : Text) (e : ValidationResult)
    → is_valid e ≡ false
    → is_valid (if matches_range p low high s then valid else e) ≡ true
    → (low ≤ length s) × (length s ≤ high) × (all p s ≡ true)
of_range p low high s e h k = elim (Bool-cases (matches_range p low high s)) [
  | inl m ↦ range-parts p low high s m
  | inr m ↦ let no : is_valid e ≡ true = rw m at k in cc
]

judge_identity-IsNumber :
    (show : Num → Text) (t : IdentityDocumentType) (s : Text)
    → trim s ≡ s
    → is_valid (judge_identity show t s) ≡ true
    → IsNumber t s
unfolding judge_identity is_valid
judge_identity-IsNumber show ruc s trimmed h = of_ruc show s trimmed h
judge_identity-IsNumber show dni s trimmed h = of_dni show s trimmed h
judge_identity-IsNumber show carnet_extranjeria s trimmed h =
    let (l, k, c) = of_range is_alnum_dash 4 12 s _ refl h in
    record {
      long = l;
      short = k;
      characters = all-weaken is_alnum_dash is_other_unit dash-other s c;
    }
judge_identity-IsNumber show pasaporte s trimmed h =
    let (l, k, c) = of_range is_alnum_dash 4 12 s _ refl h in
    record {
      long = l;
      short = k;
      characters = all-weaken is_alnum_dash is_other_unit dash-other s c;
    }
judge_identity-IsNumber show cedula_diplomatica s trimmed h =
    let (l, k, c) = of_range is_alnum_dash 4 15 s _ refl h in
    record {
      long = l;
      short = k;
      characters = all-weaken is_alnum_dash is_other_unit dash-other s c;
    }
judge_identity-IsNumber show no_domiciliado s trimmed h =
    let (l, k, c) = of_range is_other_unit 1 15 s _ refl h in
    record { long = l; short = k; characters = c }
judge_identity-IsNumber show doc_ident_pais_residencia s trimmed h =
    let (l, k, c) = of_range is_other_unit 1 15 s _ refl h in
    record { long = l; short = k; characters = c }

find_identity_type-code :
    (ts : List IdentityDocumentType) (s : Text) {t : IdentityDocumentType}
    → find_identity_type ts s ≡ some t
    → identity_code t ≡ s
unfolding find_identity_type
find_identity_type-code [] s h = cc
find_identity_type-code (u ∷ ts) s {t} h = elim (Bool-cases (text_eq (identity_code u) s)) [
  | inl e ↦
      let same : u ≡ t = ground (arith, e, h) in rw same at (eq_of_text_eq (identity_code u) s e)
  | inr e ↦ find_identity_type-code ts s (rw e at h)
]

-- If an identity document is accepted, then its trimmed type is a code of catalogue 06, and its
-- trimmed number is of the lengths that this type allows and holds only letters, digits, points,
-- dashes and underscores.
pub validate_identity_document-IsNumber :
    (show : Num → Text) (type given : Value)
    → is_valid (validate_identity_document show type given) ≡ true
    → (t : IdentityDocumentType) × (identity_code t ≡ trim (to_text_or_empty show type))
      × IsNumber t (trim (to_text_or_empty show given))
unfolding validate_identity_document is_valid
validate_identity_document-IsNumber show type given h =
    let s = trim (to_text_or_empty show type) in
    let n = trim (to_text_or_empty show given) in
    elim (Option-cases (find_identity_type identity_types s)) [
      | inl e ↦ let no : false ≡ true = rw (e, is_valid) at h in cc
      | inr (t, e) ↦ (
        t,
        find_identity_type-code identity_types s e,
        judge_identity-IsNumber show t n (trim_idem (to_text_or_empty show given))
            (rw (e, is_valid) at h),
      )
    ]
