-- ===== src/Destination/Laws.antt =====
-- What an allowed destination is.
use mathlib.Core.List.{Memᴰ}
use facturify.Base.{
  suc, ◌≤◌, ◌<◌, ◌≡◌, ◌⊎◌, refl, sym, ap, Bool, true, false, not, some, List, [], ◌∷◌, map, length,
  All, subst, arith, Bool-cases, Option-cases, inl, inr, ◌==◌, if◌then◌else◌,
}
use facturify.Base.Result.{ok_inj, ok, err, >>=-eq-ok, throw_if-eq-ok}
use facturify.Js.Text.{Text, codes, text_eq, trim}
use facturify.Js.Text.Laws.{eq_of_text_eq}
use facturify.Js.Number.{of_ℕ, lt_num}
use facturify.Js.Value.{Value, string, undefined, null, boolean, number, other}
use facturify.Destination.Address.{is_public_routable_ip, normalize_ip}
use facturify.Destination.Service.{
  generic_dns_safety_error, DnsSafetyOptions, Url, Network, default_dns_timeout_ms,
  max_dns_resolved_addresses, or_default, unique, resolve_with_timeout, check_addresses, is_missing,
  is_empty, resolve_name, literal_address, clean_hostname, check_url, validate_webhook_destination,
}
use facturify.Destination.Unique.{
  unique-Memᴰ, Distinct, unique-Distinct, length-unique, Memᴰ-map, All-Memᴰ,
}

of_not : (b : Bool) → not b ≡ false → b ≡ true
of_not true h = refl
of_not false h = cc

module _ (N : Network) where
  open N use {is_ip, wide, parse_url, lookup}

  abbrev pub IsPublic : Text → Type 0
  IsPublic ip = is_public_routable_ip is_ip wide ip ≡ true

  check_addresses-All : (ips : List Text) → check_addresses N ips ≡ ok tt → All IsPublic ips
  unfolding check_addresses
  check_addresses-All [] h = tt
  check_addresses-All (ip ∷ ips) h =
      let (passed, e) = throw_if-eq-ok (not (is_public_routable_ip is_ip wide ip)) _ _ h in
      (of_not _ passed, check_addresses-All ips e)

  -- The addresses of a name that is allowed, from what the DNS answered.
  pub record Resolved (host : Text) (options : DnsSafetyOptions) (addresses : List Text)
      : Type 0 where
    pub answers : List Text
    pub answered :
        resolve_with_timeout N host (or_default options.timeout_ms default_dns_timeout_ms)
        ≡ ok answers
    pub few :
        lt_num (or_default options.max_addresses max_dns_resolved_addresses) (of_ℕ (length answers))
        ≡ false
    pub all_public : (ip : Text) → Memᴰ ip answers → IsPublic (normalize_ip wide ip)
    pub kept : (ip : Text) → Memᴰ ip answers → Memᴰ (normalize_ip wide ip) addresses
    pub public : All IsPublic addresses
    pub distinct : Distinct addresses
    pub inhabited : 0 < length addresses
    pub bounded : length addresses ≤ length answers

  length-map : (f : Text → Text) (ss : List Text) → length (map f ss) ≡ length ss
  length-map f [] = refl
  length-map f (s ∷ ss) = ap suc (length-map f ss)

  not-missing :
      (ss : List Text) → is_missing N ss ≡ false → 0 < length (unique (map (normalize_ip wide) ss))
  unfolding unique
  not-missing [] h = cc
  not-missing (s ∷ ss) h = omega arith

  resolve_name-Resolved :
      (host : Text) (options : DnsSafetyOptions) (addresses : List Text)
      → resolve_name N host options ≡ ok addresses
      → Resolved host options addresses
  unfolding resolve_name
  resolve_name-Resolved host options addresses h =
      let (answers, answered, e) =
        >>=-eq-ok
          (resolve_with_timeout N host (or_default options.timeout_ms default_dns_timeout_ms)) _
          h in
      let (present, e₁) = throw_if-eq-ok (is_missing N answers) _ _ e in
      let (few, e₂) =
        throw_if-eq-ok
          (lt_num (or_default options.max_addresses max_dns_resolved_addresses)
            (of_ℕ (length answers)))
          _ _ e₁ in
      let normalized = map (normalize_ip wide) answers in
      let (u, checked, e₃) = >>=-eq-ok (check_addresses N (unique normalized)) _ e₂ in
      let same : unique normalized ≡ addresses = ok_inj e₃ in
      let public = check_addresses-All (unique normalized) checked in
      let member : (ip : Text) → Memᴰ ip answers → Memᴰ (normalize_ip wide ip) (unique normalized) =
        λ ip m.
          unique-Memᴰ normalized (normalize_ip wide ip)
            (Memᴰ-map (normalize_ip wide) answers ip m) in
      let it : Resolved host options (unique normalized) = record {
        answers = answers;
        answered = answered;
        few = few;
        all_public = λ ip m.
            All-Memᴰ IsPublic (unique normalized) (normalize_ip wide ip) public (member ip m);
        kept = member;
        public = public;
        distinct = unique-Distinct normalized;
        inhabited = not-missing answers present;
        bounded = omega (arith, length-unique normalized, length-map (normalize_ip wide) answers);
      } in
      subst (λ as'. Resolved host options as') same it

  -- A destination that is allowed: an HTTPS URL whose host is a public address, or a name.
  pub record IsAllowed (given : Value) (options : DnsSafetyOptions) (addresses : List Text)
      : Type 0 where
    pub written : Text
    pub is_text : given ≡ string written
    pub url : Url
    pub parsed : parse_url (trim written) ≡ some url
    pub https : url.protocol ≡ codes "https:"
    pub host :
        (IsPublic (clean_hostname N url)
          × (addresses ≡ normalize_ip wide (clean_hostname N url) ∷ []))
        ⊎ ((is_ip (clean_hostname N url) ≡ 0) × Resolved (clean_hostname N url) options addresses)

  host_of :
      (host : Text) (options : DnsSafetyOptions) (addresses : List Text)
      → (if not (is_ip host == 0) then literal_address N host else resolve_name N host options)
        ≡ ok addresses
      → (IsPublic host × (addresses ≡ normalize_ip wide host ∷ []))
        ⊎ ((is_ip host ≡ 0) × Resolved host options addresses)
  unfolding literal_address
  host_of host options addresses h = elim (Bool-cases (is_ip host == 0)) [
    | inl name ↦
        inr (ground (arith, name), resolve_name-Resolved host options addresses (rw name at h))
    | inr literal ↦
        let h' : literal_address N host ≡ ok addresses = rw literal at h in
        let (passed, e) = throw_if-eq-ok (not (is_public_routable_ip is_ip wide host)) _ _ h' in
        inl (of_not _ passed, sym (ok_inj e))
  ]

  -- If a destination is allowed, then it was given as the text of an HTTPS URL, and its host is either
  -- a public address, which is the only one allowed, or a name; for a name the DNS answered in time
  -- with no more addresses than the limit, every one of them is public when normalized, and the
  -- allowed addresses, at least one, are public, distinct, and contain each of the answered ones.
  pub validate_webhook_destination-IsAllowed :
      (given : Value) (options : DnsSafetyOptions) (addresses : List Text)
      → validate_webhook_destination N given options ≡ ok addresses
      → IsAllowed given options addresses
  unfolding validate_webhook_destination check_url
  validate_webhook_destination-IsAllowed undefined options addresses h = cc
  validate_webhook_destination-IsAllowed null options addresses h = cc
  validate_webhook_destination-IsAllowed (boolean b) options addresses h = cc
  validate_webhook_destination-IsAllowed (number x) options addresses h = cc
  validate_webhook_destination-IsAllowed (other s) options addresses h = cc
  validate_webhook_destination-IsAllowed (string s) options addresses h =
      let (filled, e) = throw_if-eq-ok (is_empty (trim s)) _ _ h in
      elim (Option-cases (parse_url (trim s))) [
        | inl failed ↦ let no : err generic_dns_safety_error ≡ ok addresses = rw failed at e in cc
        | inr (url, parsed) ↦
            let e₁ : check_url N (some url) options ≡ ok addresses = rw parsed at e in
            let (https, e₂) = throw_if-eq-ok (not (text_eq url.protocol (codes "https:"))) _ _ e₁ in
            let (named, e₃) = throw_if-eq-ok (is_empty (trim url.hostname)) _ _ e₂ in
            record {
              written = s;
              is_text = refl;
              url = url;
              parsed = parsed;
              https = eq_of_text_eq url.protocol (codes "https:") (of_not _ https);
              host = host_of (clean_hostname N url) options addresses e₃;
            }
      ]
