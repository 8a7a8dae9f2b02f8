-- ===== src/Idempotency/Key.antt =====
-- `validateIdempotencyKey` (src/idempotency/idempotency.service.ts).
use facturify.Base.{
  ℕ, ◌≤◌, ◌≡◌, ◌↔◌, refl, ap, subst, ◌∙◌, Bool, true, false, not, ◌&&◌, ◌||◌, [], ◌∷◌, all, any,
  length, leb, ltb, ◌==◌, arith,
}
use facturify.Base.Result.{Result, ok, err, ◌>>◌, throw_if, throw_if-eq-ok, ok_inj}
use facturify.Js.Text.{Text, is_space, is_alnum, is_digit, is_upper, is_lower}
use facturify.Js.Value.{Value, undefined, null, boolean, number, string, other}

pub data KeyError : Type 0 where
  required no_text empty control_characters white_space too_short too_long bad_characters : KeyError

abbrev pub key_min_length : ℕ
key_min_length = 16

abbrev pub key_max_length : ℕ
key_max_length = 128

-- `[A-Za-z0-9_.-]`
unfoldable pub is_key_unit : ℕ → Bool
unfolding is_alnum
is_key_unit c = is_alnum c || c == b'_' || c == b'.' || c == b'-'

abbrev pub is_control : ℕ → Bool
is_control c = c == 13 || c == 10 || c == 9 || c == 0

-- The tests on a text, which yields the sanitized key or the error.
unfoldable pub check_key_text : Text → Result KeyError Text
unfolding is_space is_key_unit
check_key_text key = do
  throw_if (length key == 0) empty
  throw_if (any is_control key) control_characters
  throw_if (any is_space key) white_space
  throw_if (ltb (length key) key_min_length) too_short
  throw_if (ltb key_max_length (length key)) too_long
  throw_if (not (leb 16 (length key) && leb (length key) 128 && all is_key_unit key)) bad_characters
  ok key

-- `assertValidIdempotencyKey` throws the error that `validateIdempotencyKey` returns.
unfoldable pub validate_idempotency_key : Value → Result KeyError Text
unfolding check_key_text
validate_idempotency_key undefined = err required
validate_idempotency_key null = err required
validate_idempotency_key (string key) = check_key_text key
validate_idempotency_key _ = err no_text

unit-plain : (c : ℕ) → is_key_unit c ≡ true → (is_control c ≡ false) × (is_space c ≡ false)
unfolding is_key_unit is_alnum is_digit is_upper is_lower is_space
unit-plain c h = ground (arith, h)

none-control : (s : Text) → all is_key_unit s ≡ true → any is_control s ≡ false
none-control [] h = refl
none-control (c ∷ s) h =
    let head : is_key_unit c ≡ true = ground (arith, h) in
    let tail : all is_key_unit s ≡ true = ground (arith, h) in
    rw ((unit-plain c head).0, none-control s tail) refl

none-space : (s : Text) → all is_key_unit s ≡ true → any is_space s ≡ false
none-space [] h = refl
none-space (c ∷ s) h =
    let head : is_key_unit c ≡ true = ground (arith, h) in
    let tail : all is_key_unit s ≡ true = ground (arith, h) in
    rw ((unit-plain c head).1, none-space s tail) refl

passes :
    {A : Type 0} (e : KeyError) (test : Bool) (next : Result KeyError A)
    → test ≡ false
    → (throw_if test e >> next) ≡ next
passes e true next h = cc
passes e false next h = refl

accepted :
    (s key : Text)
    → check_key_text s ≡ ok key
    → (string s ≡ string key)
      × (16 ≤ length key)
      × (length key ≤ 128)
      × (all is_key_unit key ≡ true)
unfolding check_key_text
accepted s key h =
    let (_, h₁) = throw_if-eq-ok (length s == 0) _ _ h in
    let (_, h₂) = throw_if-eq-ok (any is_control s) _ _ h₁ in
    let (_, h₃) = throw_if-eq-ok (any is_space s) _ _ h₂ in
    let (_, h₄) = throw_if-eq-ok (ltb (length s) key_min_length) _ _ h₃ in
    let (_, h₅) = throw_if-eq-ok (ltb key_max_length (length s)) _ _ h₄ in
    let (good, h₆) =
      throw_if-eq-ok (not (leb 16 (length s) && leb (length s) 128 && all is_key_unit s))
        bad_characters (ok s) h₅ in
    let same : s ≡ key = ok_inj h₆ in
    let parts : (16 ≤ length s) × (length s ≤ 128) × (all is_key_unit s ≡ true) =
      ground (arith, good) in
    let (low, high, units) =
      subst (λ k. (16 ≤ length k) × (length k ≤ 128) × (all is_key_unit k ≡ true)) same parts in
    (ap string same, low, high, units)

check_key_text-ok :
    (s : Text) → 16 ≤ length s → length s ≤ 128 → all is_key_unit s ≡ true → check_key_text s ≡ ok s
unfolding check_key_text
check_key_text-ok s low high units =
    passes empty (length s == 0) _ (ground (arith, low))
    ∙ passes control_characters (any is_control s) _ (none-control s units)
    ∙ passes white_space (any is_space s) _ (none-space s units)
    ∙ passes too_short (ltb (length s) key_min_length) _ (ground (arith, low))
    ∙ passes too_long (ltb key_max_length (length s)) _ (ground (arith, high))
    ∙ passes bad_characters (not (leb 16 (length s) && leb (length s) 128 && all is_key_unit s)) _
        (ground (arith, low, high, units))

string_inj : {s t : Text} → string s ≡ string t → s ≡ t
string_inj {s} e = ap (λ v. elim v [ string u ↦ u | _ ↦ s ]) e

-- A key is accepted, as it is, exactly if it is a text of 16 to 128 characters that are all letters,
-- digits, underscores, points or dashes.
pub validate_idempotency_key_iff :
    (v : Value) (key : Text)
    → (validate_idempotency_key v ≡ ok key)
      ↔ ((v ≡ string key) × (16 ≤ length key) × (length key ≤ 128) × (all is_key_unit key ≡ true))
unfolding validate_idempotency_key check_key_text
validate_idempotency_key_iff undefined key = ((λ h. cc), λ (h, _, _, _). cc)
validate_idempotency_key_iff null key = ((λ h. cc), λ (h, _, _, _). cc)
validate_idempotency_key_iff (boolean b) key = ((λ h. cc), λ (h, _, _, _). cc)
validate_idempotency_key_iff (number x) key = ((λ h. cc), λ (h, _, _, _). cc)
validate_idempotency_key_iff (other s) key = ((λ h. cc), λ (h, _, _, _). cc)
validate_idempotency_key_iff (string s) key = (
  accepted s key,
  λ (e, low, high, units).
      let same : s ≡ key = string_inj e in rw same (check_key_text-ok key low high units),
)
