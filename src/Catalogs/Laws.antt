-- ===== src/Catalogs/Laws.antt =====
-- The assertions on the catalogues of SUNAT (src/sunat-catalogs).
use mathlib.Core.List.{Memᴰ}
use facturify.Base.{
  ℕ, zero, suc, ◌+◌, ◌≤◌, ◌≡◌, ◌⊎◌, refl, Bool, true, false, not, ◌&&◌, ◌||◌, [], ◌∷◌, ◌++◌, map,
  take, length, all, ltb, ◌==◌, arith, inl, inr, Bool-cases,
}
use facturify.Base.Result.{ok, err}
use facturify.Js.Text.{Text, codes, is_space, trim_start, trim_end_cons, trim_end, trim}
use facturify.Js.Text.Laws.{includes-Memᴰ, Memᴰ-includes}
use facturify.Js.Number.{Num}
use facturify.Js.Value.{Value, undefined, null, boolean, number, string, other, is_nullish, to_text}
use facturify.Catalogs.{
  Catalog, codes_of, is_valid_code, is_control, space_for_control, collapse_spaces,
  starts_with_space, shorten, sanitize_catalog_code, assert_valid_code,
}

-- No control unit, and no white space but the plain one.
abbrev pub is_safe_unit : ℕ → Bool
is_safe_unit c = not (is_control c) && (not (is_space c) || c == 32)

pub record IsSafe (s : Text) : Type 0 where
  pub filled : 1 ≤ length s
  pub bounded : length s ≤ 33
  pub units : all is_safe_unit s ≡ true

module _ (f : ℕ → Bool) where
  trim_start-all : (s : Text) → all f s ≡ true → all f (trim_start s) ≡ true
  unfolding trim_start
  trim_start-all [] h = refl
  trim_start-all (c ∷ s) h = ground (arith, h, trim_start-all s)

  trim_end_cons-all :
      (c : ℕ) (s : Text) → f c ≡ true → all f s ≡ true → all f (trim_end_cons c s) ≡ true
  unfolding trim_end_cons
  trim_end_cons-all c [] h k = ground (arith, h, k)
  trim_end_cons-all c (d ∷ s) h k = rw h k

  trim_end-all : (s : Text) → all f s ≡ true → all f (trim_end s) ≡ true
  unfolding trim_end
  trim_end-all [] h = refl
  trim_end-all (c ∷ s) h =
      let first : f c ≡ true = ground (arith, h) in
      let rest : all f s ≡ true = ground (arith, h) in
      trim_end_cons-all c (trim_end s) first (trim_end-all s rest)

  trim-all : (s : Text) → all f s ≡ true → all f (trim s) ≡ true
  unfolding trim
  trim-all s h = trim_end-all (trim_start s) (trim_start-all s h)

  take-all : (n : ℕ) (s : Text) → all f s ≡ true → all f (take n s) ≡ true
  take-all zero s h = refl
  take-all (suc n) [] h = refl
  take-all (suc n) (c ∷ s) h =
      let first : f c ≡ true = ground (arith, h) in
      let rest : all f s ≡ true = ground (arith, h) in rw first (take-all n s rest)

  all_app : (s t : Text) → all f s ≡ true → all f t ≡ true → all f (s ++ t) ≡ true
  all_app [] t h k = k
  all_app (c ∷ s) t h k =
      let first : f c ≡ true = ground (arith, h) in
      let rest : all f s ≡ true = ground (arith, h) in rw first (all_app s t rest k)

length-take_app : (n : ℕ) (s t : Text) → length (take n s ++ t) ≤ n + length t
length-take_app zero s t = omega arith
length-take_app (suc n) [] t = omega arith
length-take_app (suc n) (c ∷ s) t = omega (arith, length-take_app n s t)

no_control : (s : Text) → all (λ c. not (is_control c)) (map space_for_control s) ≡ true
unfolding is_control
no_control [] = refl
no_control (c ∷ s) = ground (arith, no_control s)

collapse_spaces-all :
    (s : Text)
    → all (λ c. not (is_control c)) s ≡ true
    → all is_safe_unit (collapse_spaces s) ≡ true
unfolding collapse_spaces is_control
collapse_spaces-all [] h = refl
collapse_spaces-all (c ∷ s) h =
    let first : is_control c ≡ false = ground (arith, h) in
    let rest : all (λ c. not (is_control c)) s ≡ true = ground (arith, h) in
    let later = collapse_spaces-all s rest in
    elim (Bool-cases (is_space c)) [
      | inr kept ↦ rw (kept, kept, first) later
      | inl space ↦ elim (Bool-cases (starts_with_space s)) [
        | inl again ↦ rw (space, again) later
        | inr last ↦ rw (space, last) later
      ]
    ]

shorten-IsSafe : (s : Text) → all is_safe_unit s ≡ true → IsSafe (shorten s)
unfolding is_control is_space
shorten-IsSafe [] h = record { filled = omega arith; bounded = omega arith; units = refl }
shorten-IsSafe (c ∷ s) h = elim (Bool-cases (ltb 30 (length (c ∷ s)))) [
  | inl long ↦ rw long (record {
    filled = omega arith;
    bounded = omega (arith, length-take_app 29 s (codes "..."));
    units =
        all_app is_safe_unit (take 30 (c ∷ s)) (codes "...") (take-all is_safe_unit 30 (c ∷ s) h)
          refl;
  })
  | inr short ↦
      rw short (record { filled = omega arith; bounded = ground (arith, short); units = h })
]

sanitize_catalog_code-IsSafe :
    (show : Num → Text) (v : Value) → IsSafe (sanitize_catalog_code show v)
unfolding sanitize_catalog_code is_control is_space
sanitize_catalog_code-IsSafe show v = elim (Bool-cases (is_nullish v)) [
  | inl empty ↦ rw empty (shorten-IsSafe [] refl)
  | inr filled ↦
      let clean = map space_for_control (to_text show v) in
      rw filled (
        shorten-IsSafe (collapse_spaces (trim clean)) (
          collapse_spaces-all (trim clean)
            (trim-all (λ c. not (is_control c)) clean (no_control (to_text show v)))))
]

abbrev pub IsCode : Catalog → Value → Type 0
IsCode catalog v = (s : Text) × (v ≡ string s) × Memᴰ s (codes_of catalog)

is_valid_code-IsCode :
    (catalog : Catalog) (v : Value) → is_valid_code catalog v ≡ true → IsCode catalog v
unfolding is_valid_code
is_valid_code-IsCode catalog (string s) h = (s, refl, includes-Memᴰ (codes_of catalog) s h)
is_valid_code-IsCode catalog undefined h = cc
is_valid_code-IsCode catalog null h = cc
is_valid_code-IsCode catalog (boolean b) h = cc
is_valid_code-IsCode catalog (number x) h = cc
is_valid_code-IsCode catalog (other s) h = cc

IsCode-is_valid_code :
    (catalog : Catalog) (v : Value) → IsCode catalog v → is_valid_code catalog v ≡ true
unfolding is_valid_code
IsCode-is_valid_code catalog v (s, e, m) = rw e (Memᴰ-includes m)

-- The assertion on a catalogue passes exactly for a text that is one of its codes. For all else it throws the
-- exception of that catalogue with a text of 1 to 33 units, none of them a control unit, a line break or
-- other white space than the plain one.
pub assert_valid_code-answer :
    (show : Num → Text) (catalog : Catalog) (v : Value)
    → ((assert_valid_code show catalog v ≡ ok tt) × IsCode catalog v)
      ⊎ ((s : Text) × (assert_valid_code show catalog v
            ≡ err (record { catalog = catalog; sanitized = s }))
          × IsSafe s
          × ¬ IsCode catalog v)
unfolding assert_valid_code
assert_valid_code-answer show catalog v = elim (Bool-cases (is_valid_code catalog v)) [
  | inl valid ↦ inl (rw valid refl, is_valid_code-IsCode catalog v valid)
  | inr refused ↦ inr (
    sanitize_catalog_code show v,
    rw refused refl,
    sanitize_catalog_code-IsSafe show v,
    λ is. let accepted : is_valid_code catalog v ≡ true = IsCode-is_valid_code catalog v is in cc,
  )
]
