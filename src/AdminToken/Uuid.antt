-- ===== src/AdminToken/Uuid.antt =====
-- `isValidUuid` (src/admin-token-policy/admin-token-policy.util.ts).
use facturify.Base.{
  map, refl, ◌∙◌, ℕ, ◌≡◌, Bool, true, false, ◌&&◌, ◌||◌, List, [], ◌∷◌, ◌==◌, leb, ltb, arith,
}
use facturify.Js.Text.{is_ascii, to_lower, Text, is_digit, lower_unit, is_upper}

-- What stands at a place of a UUID.
pub data UuidUnit : Type 0 where
  hex dash version variant : UuidUnit

-- `[0-9a-f]`, `-`, `[1-5]` and `[89ab]`, under the flag `i`.
unfoldable pub fits : UuidUnit → ℕ → Bool
unfolding is_digit
fits hex c = is_digit c || (leb b'a' c && leb c b'f') || (leb b'A' c && leb c b'F')
fits dash c = c == b'-'
fits version c = leb b'1' c && leb c b'5'
fits variant c = c == b'8' || c == b'9' || c == b'a' || c == b'b' || c == b'A' || c == b'B'

abbrev pub uuid_units : List UuidUnit
uuid_units =
    hex ∷ hex ∷ hex ∷ hex ∷ hex ∷ hex ∷ hex ∷ hex ∷ dash ∷ hex ∷ hex ∷ hex ∷ hex ∷ dash ∷ version
    ∷ hex ∷ hex ∷ hex ∷ dash ∷ variant ∷ hex ∷ hex ∷ hex ∷ dash ∷ hex ∷ hex ∷ hex ∷ hex ∷ hex ∷ hex
    ∷ hex ∷ hex ∷ hex ∷ hex ∷ hex ∷ hex ∷ []

unfoldable pub fits_all : List UuidUnit → Text → Bool
unfolding fits
fits_all [] [] = true
fits_all (u ∷ us) (c ∷ s) = fits u c && fits_all us s
fits_all _ _ = false

unfoldable pub is_valid_uuid : Text → Bool
unfolding fits_all
is_valid_uuid s = fits_all uuid_units s

fits-lower : (u : UuidUnit) (c : ℕ) → fits u c ≡ true → fits u (lower_unit c) ≡ true
unfolding fits is_digit lower_unit is_upper
fits-lower hex c h = ground (arith, h)
fits-lower dash c h = ground (arith, h)
fits-lower version c h = ground (arith, h)
fits-lower variant c h = ground (arith, h)

fits-ascii : (u : UuidUnit) (c : ℕ) → fits u c ≡ true → ltb c 128 ≡ true
unfolding fits is_digit
fits-ascii hex c h = ground (arith, h)
fits-ascii dash c h = ground (arith, h)
fits-ascii version c h = ground (arith, h)
fits-ascii variant c h = ground (arith, h)

lower_unit_idem : (c : ℕ) → lower_unit (lower_unit c) ≡ lower_unit c
unfolding lower_unit is_upper
lower_unit_idem c = ground arith

fits_all-lower :
    (us : List UuidUnit) (s : Text) → fits_all us s ≡ true → fits_all us (map lower_unit s) ≡ true
unfolding fits_all
fits_all-lower [] [] h = refl
fits_all-lower [] (c ∷ s) h = cc
fits_all-lower (u ∷ us) [] h = cc
fits_all-lower (u ∷ us) (c ∷ s) h =
    let head : fits u c ≡ true = ground (arith, h) in
    let tail : fits_all us s ≡ true = ground (arith, h) in
    rw (fits-lower u c head, fits_all-lower us s tail) refl

fits_all-ascii : (us : List UuidUnit) (s : Text) → fits_all us s ≡ true → is_ascii s ≡ true
unfolding fits_all
fits_all-ascii [] [] h = refl
fits_all-ascii [] (c ∷ s) h = cc
fits_all-ascii (u ∷ us) [] h = cc
fits_all-ascii (u ∷ us) (c ∷ s) h =
    let head : fits u c ≡ true = ground (arith, h) in
    let tail : fits_all us s ≡ true = ground (arith, h) in
    rw (fits-ascii u c head, fits_all-ascii us s tail) refl

lower_idem : (s : Text) → map lower_unit (map lower_unit s) ≡ map lower_unit s
lower_idem [] = refl
lower_idem (c ∷ s) = rw (lower_unit_idem c, lower_idem s) refl

to_lower-uuid :
    (wide : Text → Text) (s : Text) → is_valid_uuid s ≡ true → to_lower wide s ≡ map lower_unit s
unfolding to_lower is_valid_uuid
to_lower-uuid wide s h = rw (fits_all-ascii uuid_units s h) refl

-- A UUID in small letters is a UUID, and small letters stay.
pub uuid-lower :
    (wide : Text → Text) (s : Text)
    → is_valid_uuid s ≡ true
    → (is_valid_uuid (to_lower wide s) ≡ true) × (to_lower wide (to_lower wide s) ≡ to_lower wide s)
unfolding is_valid_uuid
uuid-lower wide s h =
    let small = to_lower-uuid wide s h in
    let valid = fits_all-lower uuid_units s h in
    rw small (valid, to_lower-uuid wide (map lower_unit s) valid ∙ lower_idem s)
