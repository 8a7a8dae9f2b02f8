-- ===== src/Idempotency/Json.antt =====
-- The canonical text of a request's body (src/idempotency/idempotency.util.ts). The digits of a
-- number, and `toLowerCase` outside ASCII, are arguments.
pub mod Sort
pub mod Laws
use facturify.Base.{
  ℕ, ◌+◌, ◌-◌, ◌/◌, ◌%◌, Bool, true, false, not, ◌&&◌, ◌||◌, Option, none, some, List, [], ◌∷◌,
  ◌++◌, filter, any, ltb, leb, ◌==◌, if◌then◌else◌, map,
}
use facturify.Base.Result.{Result, ok, err, ◌>>=◌}
use facturify.Js.Text.{Text, codes, includes, to_lower, lower_unit, text_eq}
use facturify.Js.Number.{Num, is_finite}
use facturify.Js.Utf8.{is_high, is_low}
use facturify.Js.Search.{contains}
use facturify.Idempotency.Json.Sort.{sort_entries}

-- A value of JavaScript as a request's body can hold it. A date has its ISO text, if it is valid, and
-- a decimal its digits; `other` is a function, a symbol or a bigint, with what `String` gives.
mutual
  pub data Json : Type 0 where
    null undefined : Json
    boolean : Bool → Json
    number : Num → Json
    string : Text → Json
    date : Option Text → Json
    decimal : Text → Json
    array : Items → Json
    object : Fields → Json
    other : Text → Json

  pub data Items : Type 0 where
    nil : Items
    cons : Json → Items → Items

  pub data Fields : Type 0 where
    end : Fields
    field : Text → Json → Fields → Fields

pub data CanonicalError : Type 0 where
  non_finite_number invalid_date : CanonicalError

abbrev pub M : Type 0 → Type 0
M = Result CanonicalError

abbrev hex_digit : ℕ → ℕ
hex_digit n = if ltb n 10 then b'0' + n else b'a' + (n - 10)

abbrev unicode_escape : ℕ → Text
unicode_escape c =
    b'\\'
    ∷ b'u'
    ∷ hex_digit (c / 4096)
    ∷ hex_digit (c / 256 % 16)
    ∷ hex_digit (c / 16 % 16)
    ∷ hex_digit (c % 16)
    ∷ []

-- One unit of a string in JSON, which is no part of a pair of surrogates.
abbrev escape_unit : ℕ → Text
escape_unit c =
    if c == b'"'
    then b'\\' ∷ b'"' ∷ []
    else if c == b'\\'
    then b'\\' ∷ b'\\' ∷ []
    else if c == 8
    then b'\\' ∷ b'b' ∷ []
    else if c == 9
    then b'\\' ∷ b't' ∷ []
    else if c == 10
    then b'\\' ∷ b'n' ∷ []
    else if c == 12
    then b'\\' ∷ b'f' ∷ []
    else if c == 13
    then b'\\' ∷ b'r' ∷ []
    else if ltb c 32 || is_high c || is_low c
    then unicode_escape c
    else c ∷ []

unfoldable pub escape : Text → Text
escape [] = []
escape (c ∷ []) = escape_unit c
escape (c ∷ d ∷ s) =
    let single = escape_unit c ++ escape (d ∷ s) in
    let pair = c ∷ d ∷ escape s in if is_high c && is_low d then pair else single

-- `JSON.stringify` of a string.
unfoldable pub quote : Text → Text
unfolding escape
quote s = b'"' ∷ (escape s ++ (b'"' ∷ []))

abbrev pub sensitive_key_names : List Text
sensitive_key_names =
    codes "authorization"
    ∷ codes "password"
    ∷ codes "token"
    ∷ codes "secret"
    ∷ codes "apikey"
    ∷ codes "api_key"
    ∷ codes "certificado"
    ∷ codes "certificados"
    ∷ codes "certificate"
    ∷ codes "certificates"
    ∷ codes "accesstoken"
    ∷ codes "access_token"
    ∷ codes "refreshtoken"
    ∷ codes "refresh_token"
    ∷ codes "clientsecret"
    ∷ codes "client_secret"
    ∷ codes "encryptedpassword"
    ∷ codes "encrypted_password"
    ∷ codes "passwordiv"
    ∷ codes "password_iv"
    ∷ codes "passwordauthtag"
    ∷ codes "password_auth_tag"
    ∷ codes "solpassword"
    ∷ codes "sol_password"
    ∷ []

abbrev pub sensitive_patterns : List Text
sensitive_patterns =
    codes "authorization"
    ∷ codes "password"
    ∷ codes "token"
    ∷ codes "secret"
    ∷ codes "apikey"
    ∷ codes "api_key"
    ∷ codes "certificado"
    ∷ codes "certificate"
    ∷ []

abbrev is_filled : Text → Bool
is_filled [] = false
is_filled (_ ∷ _) = true

-- A pattern ignores case, which without the flag `u` is that of ASCII for a pattern of ASCII.
unfoldable pub is_sensitive_key : (Text → Text) → Text → Bool
unfolding to_lower includes contains lower_unit
is_sensitive_key wide key =
    let lower = to_lower wide key in
    let stripped = filter (λ c. not (c == b'-' || c == b'_')) lower in
    is_filled key
    && (includes sensitive_key_names lower
        || includes sensitive_key_names stripped
        || any (λ p. contains p (map lower_unit key)) sensitive_patterns)

-- `join(',')`
unfoldable pub join : List Text → Text
join [] = []
join (s ∷ []) = s
join (s ∷ t ∷ ss) = s ++ (b',' ∷ join (t ∷ ss))

-- The first error in the order of the list, or all values.
unfoldable pub in_turn : List (M Text) → M (List Text)
in_turn [] = ok []
in_turn (m ∷ ms) = do s ← m; ss ← in_turn ms; ok (s ∷ ss)

abbrev pub CanonicalEntry : Type 0
CanonicalEntry = Text × M Text

-- `JSON.stringify(key)` and the canonical value.
unfoldable pub entry_text : CanonicalEntry → M Text
unfolding quote
entry_text (key, value) = do s ← value; ok (quote key ++ (b':' ∷ s))

abbrev wrapped : ℕ → ℕ → List Text → M Text
unfolding join
wrapped left right ss = ok (left ∷ (join ss ++ (right ∷ [])))

abbrev pub is_undefined : Json → Bool
is_undefined undefined = true
is_undefined _ = false

-- `isSensitiveKey(key) || obj[key] === undefined`
abbrev pub is_omitted : (Text → Text) → Text → Json → Bool
unfolding is_sensitive_key
is_omitted wide key value = is_sensitive_key wide key || is_undefined value

module _ (show : Num → Text) (wide : Text → Text) where
  unfoldable mutual
    unfolding is_finite quote in_turn entry_text wrapped sort_entries is_omitted

    pub canonicalize_json : Json → M Text
    canonicalize_json null = ok (codes "null")
    canonicalize_json undefined = ok []
    canonicalize_json (boolean true) = ok (codes "true")
    canonicalize_json (boolean false) = ok (codes "false")
    canonicalize_json (number x) = if is_finite x then ok (show x) else err non_finite_number
    canonicalize_json (string s) = ok (quote s)
    canonicalize_json (date none) = err invalid_date
    canonicalize_json (date (some iso)) = ok (quote iso)
    canonicalize_json (decimal digits) = ok (quote digits)
    canonicalize_json (array xs) = in_turn (canonicalize_items xs) >>= wrapped b'[' b']'
    canonicalize_json (object fs) =
        in_turn (map entry_text (sort_entries (entries fs))) >>= wrapped b'{' b'}'
    canonicalize_json (other s) = ok (quote s)

    pub canonicalize_items : Items → List (M Text)
    canonicalize_items nil = []
    canonicalize_items (cons x xs) =
        (if is_undefined x then ok (codes "null") else canonicalize_json x) ∷ canonicalize_items xs

    -- The properties that are kept, each with its canonical value.
    pub entries : Fields → List CanonicalEntry
    entries end = []
    entries (field key value fs) =
        let rest = entries fs in
        if is_omitted wide key value then rest else (key, canonicalize_json value) ∷ rest
