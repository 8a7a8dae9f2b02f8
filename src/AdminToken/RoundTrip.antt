-- ===== src/AdminToken/RoundTrip.antt =====
-- Claims that are built, sent as a payload, and validated (src/admin-token-policy).
use facturify.Base.{
  ℕ, ◌+◌, ◌≤◌, ◌≡◌, refl, sym, ap, ◌∙◌, Bool, true, false, not, some, [], ◌∷◌, ltb, ◌/◌, ◌%◌, ◌==◌,
  arith,
}
use facturify.Base.Result.{ok}
use facturify.Js.Text.{Text, codes, text_eq, includes, to_lower}
use facturify.Js.Text.Laws.{text_eq_refl}
use facturify.Js.Number.{Num, frac, neg_frac}
use facturify.Js.Integer.{ℤ, pos, negsuc, integer_of, integer_of_num, plus_ℕ, lt_ℤ, le_ℤ}
use facturify.Js.Value.{Value, number, string, is_nullish}
use facturify.Js.Map.{Map, get}
use facturify.AdminToken.Claims.{
  max_ttl_seconds, admin_roles, admin_token_type, AdminTokenClaims, BuildAdminClaimsInput,
  ValidateTokenContext,
}
use facturify.AdminToken.Uuid.{is_valid_uuid}
use facturify.AdminToken.Service.{
  uuid_of, admin_role_of, normalize_clock_tolerance, value_of, equals_text, check_fields,
  check_times, validate_claims, build_claims,
}
use facturify.AdminToken.Build.{build_claims-IsIssued}

abbrev number_of_ℤ : ℤ → Num
number_of_ℤ (pos n) = frac n 0
number_of_ℤ (negsuc n) = neg_frac n 0

-- The payload of a token, with the seven properties of its claims.
abbrev pub payload_of : AdminTokenClaims → Map Value
payload_of c =
    (codes "sub", string c.sub)
    ∷ (codes "role", string c.role)
    ∷ (codes "tokenType", string c.token_type)
    ∷ (codes "iss", string c.iss)
    ∷ (codes "aud", string c.aud)
    ∷ (codes "iat", number (number_of_ℤ c.iat))
    ∷ (codes "exp", number (number_of_ℤ c.exp))
    ∷ []

fields-known : (c : AdminTokenClaims) → check_fields (payload_of c) ≡ ok tt
unfolding check_fields includes text_eq value_of get is_nullish
fields-known c = refl

text_there : (s : Text) → equals_text s (string s) ≡ true
unfolding equals_text
text_there s = text_eq_refl s

whole_rest : (n : ℕ) → (n % 1 == 0) ≡ true
whole_rest n = ground arith

whole_quotient : (n : ℕ) → n / 1 ≡ n
whole_quotient n = omega arith

whole : (n : ℕ) → integer_of (number (number_of_ℤ (pos n))) ≡ some (pos n)
unfolding integer_of integer_of_num
whole n = rw (whole_rest n, whole_quotient n) refl

later_than : (a b : ℕ) → 1 ≤ b → ltb a (a + b) ≡ true
later_than a b h = ground (arith, h)

not_longer : (a b : ℕ) → b ≤ max_ttl_seconds → ltb (a + max_ttl_seconds) (a + b) ≡ false
not_longer a b h = ground (arith, h)

times-pass :
    (now tolerance issued ttl : ℕ)
    → 1 ≤ ttl
    → ttl ≤ max_ttl_seconds
    → ltb (now + tolerance) issued ≡ false
    → ltb now (issued + ttl + tolerance) ≡ true
    → check_times now tolerance (pos issued) (pos (issued + ttl)) ≡ ok tt
unfolding check_times le_ℤ lt_ℤ plus_ℕ
times-pass now tolerance issued ttl h k early late =
    rw (later_than issued ttl h, not_longer issued ttl k, early, late) refl

uuid-there : (s : Text) → is_valid_uuid s ≡ true → uuid_of (string s) ≡ some s
unfolding uuid_of
uuid-there s h = rw h refl

role-there : (s : Text) → includes admin_roles s ≡ true → admin_role_of (string s) ≡ some s
unfolding admin_role_of
role-there s h = rw h refl

-- A payload whose properties pass their tests.
passes :
    (wide : Text → Text) (to_number : Value → Num) (now : ℕ) (fields : Map Value)
    (context : ValidateTokenContext) (sub role : Text) (iat exp : ℤ)
    → check_fields fields ≡ ok tt
    → uuid_of (value_of fields (codes "sub")) ≡ some sub
    → admin_role_of (value_of fields (codes "role")) ≡ some role
    → equals_text admin_token_type (value_of fields (codes "tokenType")) ≡ true
    → equals_text context.expected_iss (value_of fields (codes "iss")) ≡ true
    → equals_text context.expected_aud (value_of fields (codes "aud")) ≡ true
    → integer_of (value_of fields (codes "iat")) ≡ some iat
    → integer_of (value_of fields (codes "exp")) ≡ some exp
    → check_times now (normalize_clock_tolerance to_number context.clock_tolerance_seconds) iat exp
      ≡ ok tt
    → validate_claims wide to_number now (some fields) context
      ≡ ok (record {
        sub = to_lower wide sub;
        role = role;
        token_type = admin_token_type;
        iss = context.expected_iss;
        aud = context.expected_aud;
        iat = iat;
        exp = exp;
      })
unfolding validate_claims
passes wide to_number now fields context sub role iat exp h1 h2 h3 h4 h5 h6 h7 h8 h9 =
    rw (h1, h2, h3, h4, h5, h6, h7, h8, h9) refl

value_of-payload :
    (c : AdminTokenClaims)
    → (value_of (payload_of c) (codes "sub") ≡ string c.sub)
      × (value_of (payload_of c) (codes "role") ≡ string c.role)
      × (value_of (payload_of c) (codes "tokenType") ≡ string c.token_type)
      × (value_of (payload_of c) (codes "iss") ≡ string c.iss)
      × (value_of (payload_of c) (codes "aud") ≡ string c.aud)
      × (value_of (payload_of c) (codes "iat") ≡ number (number_of_ℤ c.iat))
      × (value_of (payload_of c) (codes "exp") ≡ number (number_of_ℤ c.exp))
unfolding value_of get text_eq
value_of-payload c = (refl, refl, refl, refl, refl, refl, refl)

same_claims :
    {a : AdminTokenClaims} {sub token_type iss aud : Text} {iat exp : ℤ}
    → sub ≡ a.sub
    → token_type ≡ a.token_type
    → iss ≡ a.iss
    → aud ≡ a.aud
    → iat ≡ a.iat
    → exp ≡ a.exp
    → Path AdminTokenClaims
        (record {
          sub = sub;
          role = a.role;
          token_type = token_type;
          iss = iss;
          aud = aud;
          iat = iat;
          exp = exp;
        })
        a
same_claims {a} p q r s t u = λ j. record {
  sub = p j;
  role = a.role;
  token_type = q j;
  iss = r j;
  aud = s j;
  iat = t j;
  exp = u j;
}

is_false : (b : Bool) → not b ≡ true → b ≡ false
is_false true h = cc
is_false false h = refl

same_text : (s t : Text) (v : Value) → v ≡ string s → t ≡ s → equals_text t v ≡ true
same_text s t v h k = rw (h, k) (text_there s)

-- Claims that were built are accepted as they are while they last: by a context that expects their issuer
-- and audience, at a time that is at most the tolerance ahead of their issue and less than the
-- tolerance behind their expiry.
pub validate_claims-build_claims :
    (wide : Text → Text) (to_number : Value → Num) (now now' : ℕ) (given : BuildAdminClaimsInput)
    (c : AdminTokenClaims) (context : ValidateTokenContext)
    → build_claims wide now (some given) ≡ ok c
    → context.expected_iss ≡ c.iss
    → context.expected_aud ≡ c.aud
    → le_ℤ c.iat (pos (now' + normalize_clock_tolerance to_number context.clock_tolerance_seconds))
      ≡ true
    → lt_ℤ
        (pos now')
        (plus_ℕ c.exp (normalize_clock_tolerance to_number context.clock_tolerance_seconds))
      ≡ true
    → validate_claims wide to_number now' (some (payload_of c)) context ≡ ok c
unfolding le_ℤ lt_ℤ plus_ℕ
validate_claims-build_claims wide to_number now now' given c context built iss aud early late =
    let i = build_claims-IsIssued wide now given c built in
    let tolerance = normalize_clock_tolerance to_number context.clock_tolerance_seconds in
    let (sub, role, kind, iss', aud', iat, exp) = value_of-payload c in
    let begun : ltb (now' + tolerance) i.issued ≡ false =
      is_false (ltb (now' + tolerance) i.issued) (rw i.same_iat at early) in
    let alive : ltb now' (i.issued + i.ttl + tolerance) ≡ true = rw i.same_exp at late in
    passes wide to_number now' (payload_of c) context c.sub c.role (pos i.issued)
      (pos (i.issued + i.ttl)) (fields-known c) (ap uuid_of sub ∙ uuid-there c.sub i.valid_sub)
      (ap admin_role_of role ∙ role-there c.role i.valid_role)
      (same_text c.token_type admin_token_type (value_of (payload_of c) (codes "tokenType")) kind
        (sym i.same_type))
      (same_text c.iss context.expected_iss (value_of (payload_of c) (codes "iss")) iss' iss)
      (same_text c.aud context.expected_aud (value_of (payload_of c) (codes "aud")) aud' aud)
      (ap integer_of (iat ∙ ap (λ z. number (number_of_ℤ z)) i.same_iat) ∙ whole i.issued)
      (ap integer_of (exp ∙ ap (λ z. number (number_of_ℤ z)) i.same_exp) ∙ whole (i.issued + i.ttl))
      (times-pass now' tolerance i.issued i.ttl i.ttl_min i.ttl_max begun alive)
    ∙ ap ok (same_claims i.small_sub (sym i.same_type) iss aud (sym i.same_iat) (sym i.same_exp))
