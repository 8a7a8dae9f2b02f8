-- ===== src/AdminToken/Build.antt =====
-- The claims that `buildClaims` makes (src/admin-token-policy/admin-token-policy.service.ts).
use facturify.Base.{
  ℕ, ◌+◌, ◌≤◌, ◌≡◌, refl, sym, ap, true, ◌&&◌, Option, none, some, ltb, if◌then◌else◌, arith,
  Bool-cases, inl, inr,
}
use facturify.Base.Result.{ok, >>=-eq-ok, ok_inj}
use facturify.Js.Text.{Text, includes, to_lower}
use facturify.Js.Integer.{ℤ, pos, negsuc, integer_of}
use facturify.Js.Value.{Value, undefined, null, boolean, number, string, other}
use facturify.AdminToken.Claims.{
  TokenError, bad_subject, bad_role, no_issuer, no_audience, bad_issued_at, bad_duration,
  max_ttl_seconds, admin_roles, admin_token_type, AdminTokenClaims, BuildAdminClaimsInput,
}
use facturify.AdminToken.Uuid.{is_valid_uuid, uuid-lower}
use facturify.AdminToken.Service.{
  uuid_of, admin_role_of, name_of, or_throw, issued_at, time_to_live, build_claims,
}

-- Claims that keep the policy.
pub record IsIssued (wide : Text → Text) (c : AdminTokenClaims) : Type 0 where
  pub issued : ℕ
  pub ttl : ℕ
  pub valid_sub : is_valid_uuid c.sub ≡ true
  pub small_sub : to_lower wide c.sub ≡ c.sub
  pub valid_role : includes admin_roles c.role ≡ true
  pub same_type : c.token_type ≡ admin_token_type
  pub same_iat : c.iat ≡ pos issued
  pub same_exp : c.exp ≡ pos (issued + ttl)
  pub ttl_min : 1 ≤ ttl
  pub ttl_max : ttl ≤ max_ttl_seconds

pub or_throw-ok {ℓ} :
    {A : Type ℓ} (e : TokenError) (o : Option A) {a : A} → or_throw e o ≡ ok a → o ≡ some a
or_throw-ok e none h = cc
or_throw-ok e (some b) h = ap some (ok_inj h)

pub uuid_of-valid : (v : Value) (s : Text) → uuid_of v ≡ some s → is_valid_uuid s ≡ true
unfolding uuid_of
uuid_of-valid (string t) s h = elim (Bool-cases (is_valid_uuid t)) [
  | inl valid ↦
      let same : Path (Option Text) (some t) (some s) = rw valid at h in
      let text : t ≡ s = cc in rw (sym text) valid
  | inr invalid ↦ let no : Path (Option Text) none (some s) = rw invalid at h in cc
]
uuid_of-valid undefined s h = cc
uuid_of-valid null s h = cc
uuid_of-valid (boolean b) s h = cc
uuid_of-valid (number x) s h = cc
uuid_of-valid (other x) s h = cc

pub role_of-valid :
    (v : Value) (s : Text) → admin_role_of v ≡ some s → includes admin_roles s ≡ true
unfolding admin_role_of
role_of-valid (string t) s h = elim (Bool-cases (includes admin_roles t)) [
  | inl valid ↦
      let same : Path (Option Text) (some t) (some s) = rw valid at h in
      let text : t ≡ s = cc in rw (sym text) valid
  | inr invalid ↦ let no : Path (Option Text) none (some s) = rw invalid at h in cc
]
role_of-valid undefined s h = cc
role_of-valid null s h = cc
role_of-valid (boolean b) s h = cc
role_of-valid (number x) s h = cc
role_of-valid (other x) s h = cc

in_range :
    (o : Option ℤ) (n : ℕ)
    → (elim o [
      | none ↦ none
      | some (pos m) ↦ if ltb 0 m && ltb m (max_ttl_seconds + 1) then some m else none
      | some (negsuc _) ↦ none
    ])
      ≡ some n
    → (1 ≤ n) × (n ≤ max_ttl_seconds)
in_range none n h = cc
in_range (some (pos m)) n h = elim (Bool-cases (ltb 0 m && ltb m (max_ttl_seconds + 1))) [
  | inl inside ↦
      let same : Path (Option ℕ) (some m) (some n) = rw inside at h in
      let number : m ≡ n = cc in rw (sym number) (ground (arith, inside), ground (arith, inside))
  | inr outside ↦ let no : Path (Option ℕ) none (some n) = rw outside at h in cc
]
in_range (some (negsuc m)) n h = cc

ttl-bounds : (v : Value) (n : ℕ) → time_to_live v ≡ some n → (1 ≤ n) × (n ≤ max_ttl_seconds)
unfolding time_to_live
ttl-bounds undefined n h =
    let same : max_ttl_seconds ≡ n = cc in rw (sym same) (omega arith, omega arith)
ttl-bounds null n h = in_range (integer_of null) n h
ttl-bounds (boolean b) n h = in_range (integer_of (boolean b)) n h
ttl-bounds (number x) n h = in_range (integer_of (number x)) n h
ttl-bounds (string x) n h = in_range (integer_of (string x)) n h
ttl-bounds (other x) n h = in_range (integer_of (other x)) n h

pub build_claims-IsIssued :
    (wide : Text → Text) (now : ℕ) (given : BuildAdminClaimsInput) (c : AdminTokenClaims)
    → build_claims wide now (some given) ≡ ok c
    → IsIssued wide c
unfolding build_claims
build_claims-IsIssued wide now given c h =
    let (sub, h1, r1) = >>=-eq-ok (or_throw bad_subject (uuid_of given.sub)) _ h in
    let (role, h2, r2) = >>=-eq-ok (or_throw bad_role (admin_role_of given.role)) _ r1 in
    let (iss, h3, r3) = >>=-eq-ok (or_throw no_issuer (name_of given.iss)) _ r2 in
    let (aud, h4, r4) = >>=-eq-ok (or_throw no_audience (name_of given.aud)) _ r3 in
    let (iat, h5, r5) = >>=-eq-ok (or_throw bad_issued_at (issued_at now given.iat)) _ r4 in
    let (ttl, h6, r6) = >>=-eq-ok (or_throw bad_duration (time_to_live given.ttl_seconds)) _ r5 in
    let small = uuid-lower wide sub (uuid_of-valid given.sub sub (or_throw-ok bad_subject _ h1)) in
    let bounds = ttl-bounds given.ttl_seconds ttl (or_throw-ok bad_duration _ h6) in
    rw (sym (ok_inj r6)) (record {
      issued = iat;
      ttl = ttl;
      valid_sub = small.0;
      small_sub = small.1;
      valid_role = role_of-valid given.role role (or_throw-ok bad_role _ h2);
      same_type = refl;
      same_iat = refl;
      same_exp = refl;
      ttl_min = bounds.0;
      ttl_max = bounds.1;
    })
