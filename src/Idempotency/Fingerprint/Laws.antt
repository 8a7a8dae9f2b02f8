-- ===== src/Idempotency/Fingerprint/Laws.antt =====
-- Which requests have one fingerprint.
use facturify.Base.{◌≡◌, refl, sym, ◌∙◌, Bool, true, not, ◌==◌, some, [], ◌∷◌, ◌++◌, all, arith}
use facturify.Base.Result.{ok, >>=-eq-ok, ok_inj}
use facturify.Js.Text.{Text}
use facturify.Idempotency.Path.{normalize_method, normalize_path}
use facturify.Idempotency.Json.{Json}
use facturify.Idempotency.Json.Laws.{Rearranged, canonical-same}
use facturify.Idempotency.Fingerprint.{
  Platform, GenerateFingerprintInput, normalize_company, canonical_body, fingerprint_payload,
  generate_fingerprint,
}

-- Two requests that differ in nothing that the fingerprint reads.
pub record SameRequest (p : Platform) (a b : GenerateFingerprintInput) : Type 0 where
  pub same_method : normalize_method p.upper a.method ≡ normalize_method p.upper b.method
  pub same_path : normalize_path p.sorted_query a.path ≡ normalize_path p.sorted_query b.path
  pub same_company : normalize_company a.company_id ≡ normalize_company b.company_id
  pub same_body : Rearranged p.lower a.body b.body

canonical_body-same :
    (p : Platform) (j k : Json) → Rearranged p.lower j k → canonical_body p j ≡ canonical_body p k
unfolding canonical_body
canonical_body-same p j k r = rw (canonical-same p.lower p.show r, canonical_body) refl

pub generate_fingerprint-same :
    (p : Platform) (a b : GenerateFingerprintInput)
    → SameRequest p a b
    → generate_fingerprint p (some a) ≡ generate_fingerprint p (some b)
unfolding generate_fingerprint
generate_fingerprint-same p a b s =
    rw (s.same_method, s.same_path, s.same_company, canonical_body-same p a.body b.body s.same_body)
      refl

unfoldable pub is_plain : Text → Bool
is_plain s = all (λ c. not (c == b'|')) s

-- What stands before the first bar, and behind it.
split_bar :
    (s t u v : Text)
    → is_plain s ≡ true
    → is_plain t ≡ true
    → s ++ (b'|' ∷ u) ≡ t ++ (b'|' ∷ v)
    → (s ≡ t) × (u ≡ v)
unfolding is_plain
split_bar [] [] u v h k e = (refl, cc)
split_bar [] (d ∷ t) u v h k e = let first : b'|' ≡ d = cc in ground (arith, k, first)
split_bar (c ∷ s) [] u v h k e = let first : c ≡ b'|' = cc in ground (arith, h, first)
split_bar (c ∷ s) (d ∷ t) u v h k e =
    let first : c ≡ d = cc in
    let rest : s ++ (b'|' ∷ u) ≡ t ++ (b'|' ∷ v) = cc in
    let hs : all (λ c. not (c == b'|')) s ≡ true = ground (arith, h) in
    let ht : all (λ c. not (c == b'|')) t ≡ true = ground (arith, k) in
    let (es, eu) = split_bar s t u v hs ht rest in (rw (first, es) refl, eu)

pub fingerprint_payload-inj :
    (m n x y a b s t : Text)
    → is_plain m ≡ true
    → is_plain n ≡ true
    → is_plain x ≡ true
    → is_plain y ≡ true
    → is_plain a ≡ true
    → is_plain b ≡ true
    → fingerprint_payload m x a s ≡ fingerprint_payload n y b t
    → (m ≡ n) × (x ≡ y) × (a ≡ b) × (s ≡ t)
unfolding fingerprint_payload
fingerprint_payload-inj m n x y a b s t pm pn px py pa pb h =
    let (em, h1) =
      split_bar m n (x ++ (b'|' ∷ (a ++ (b'|' ∷ s)))) (y ++ (b'|' ∷ (b ++ (b'|' ∷ t)))) pm pn h in
    let (ex, h2) = split_bar x y (a ++ (b'|' ∷ s)) (b ++ (b'|' ∷ t)) px py h1 in
    let (ea, es) = split_bar a b s t pa pb h2 in (em, ex, ea, es)

-- The parts of a request that has a fingerprint.
pub generate_fingerprint-parts :
    (p : Platform) (a : GenerateFingerprintInput) (digest : Text)
    → generate_fingerprint p (some a) ≡ ok digest
    → (company : Text) × (body : Text) × (normalize_company a.company_id ≡ ok company)
      × (canonical_body p a.body ≡ ok body)
      × (p.sha256 (
            fingerprint_payload
              (normalize_method p.upper a.method)
              (normalize_path p.sorted_query a.path)
              company
              body)
          ≡ digest)
unfolding generate_fingerprint
generate_fingerprint-parts p a digest h =
    let (company, c, rest) = >>=-eq-ok (normalize_company a.company_id) _ h in
    let (body, b, last) = >>=-eq-ok (canonical_body p a.body) _ rest in
    (company, body, c, b, ok_inj last)

-- The text that is hashed for a request, with its company and its canonical body.
abbrev pub payload_of : Platform → GenerateFingerprintInput → Text → Text → Text
payload_of p a company body =
    fingerprint_payload (normalize_method p.upper a.method) (normalize_path p.sorted_query a.path)
      company body

-- If the texts that are hashed for two requests are no collision of SHA-256, and no method, path or company holds a
-- bar, then two requests with one fingerprint have one method, one path, one company and one canonical body.
pub generate_fingerprint-inj :
    (p : Platform) (a b : GenerateFingerprintInput)
    (digest company_a company_b body_a body_b : Text)
    → normalize_company a.company_id ≡ ok company_a
    → normalize_company b.company_id ≡ ok company_b
    → canonical_body p a.body ≡ ok body_a
    → canonical_body p b.body ≡ ok body_b
    → (p.sha256 (payload_of p a company_a body_a) ≡ p.sha256 (payload_of p b company_b body_b)
        → payload_of p a company_a body_a ≡ payload_of p b company_b body_b)
    → is_plain (normalize_method p.upper a.method) ≡ true
    → is_plain (normalize_method p.upper b.method) ≡ true
    → is_plain (normalize_path p.sorted_query a.path) ≡ true
    → is_plain (normalize_path p.sorted_query b.path) ≡ true
    → is_plain company_a ≡ true
    → is_plain company_b ≡ true
    → generate_fingerprint p (some a) ≡ ok digest
    → generate_fingerprint p (some b) ≡ ok digest
    → (normalize_method p.upper a.method ≡ normalize_method p.upper b.method)
      × (normalize_path p.sorted_query a.path ≡ normalize_path p.sorted_query b.path)
      × (company_a ≡ company_b)
      × (body_a ≡ body_b)
generate_fingerprint-inj p a b digest ca cb s t na nb sa tb hash ma mb xa xb pa pb ha hb =
    let (a', s', a1, a2, a3) = generate_fingerprint-parts p a digest ha in
    let (b', t', b1, b2, b3) = generate_fingerprint-parts p b digest hb in
    let hashed_a : p.sha256 (payload_of p a ca s) ≡ digest =
      rw (ok_inj (sym na ∙ a1), ok_inj (sym sa ∙ a2)) a3 in
    let hashed_b : p.sha256 (payload_of p b cb t) ≡ digest =
      rw (ok_inj (sym nb ∙ b1), ok_inj (sym tb ∙ b2)) b3 in
    fingerprint_payload-inj (normalize_method p.upper a.method) (normalize_method p.upper b.method)
      (normalize_path p.sorted_query a.path) (normalize_path p.sorted_query b.path) ca cb s t ma mb
      xa xb pa pb (hash (hashed_a ∙ sym hashed_b))
