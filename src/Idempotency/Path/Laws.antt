-- ===== src/Idempotency/Path/Laws.antt =====
-- What a normalized pathname looks like.
use facturify.Base.{
  ℕ, ◌≡◌, ◌⊎◌, refl, sym, subst, ap, ◌∙◌, Bool, true, false, not, ◌&&◌, [], ◌∷◌, ◌==◌, arith,
  Bool-cases, inl, inr,
}
use facturify.Js.Text.{Text}
use facturify.Idempotency.Path.{collapse, add_leading, drop_trailing, normalize_pathname}

-- No two slashes side by side.
abbrev pub no_double : Text → Bool
no_double [] = true
no_double (c ∷ []) = true
no_double (c ∷ d ∷ s) = not (c == b'/' && d == b'/') && no_double (d ∷ s)

abbrev pub ends_in_slash : Text → Bool
ends_in_slash [] = false
ends_in_slash (c ∷ []) = c == b'/'
ends_in_slash (c ∷ d ∷ s) = ends_in_slash (d ∷ s)

-- A path from the root, with neither empty segments nor a slash at its end, unless it is the root.
pub record IsPathname (p : Text) : Type 0 where
  pub rest : Text
  pub rooted : p ≡ b'/' ∷ rest
  pub single : no_double p ≡ true
  pub open_ended : (rest ≡ []) ⊎ (ends_in_slash p ≡ false)

collapse-head : (c : ℕ) (s : Text) → (u : Text) × (collapse (c ∷ s) ≡ c ∷ u)
unfolding collapse
collapse-head c [] = ([], refl)
collapse-head c (d ∷ s) = elim (Bool-cases (c == b'/' && d == b'/')) [
  | inl both ↦
      let (u, e) = collapse-head d s in
      let same : d ≡ c = ground (arith, both) in (u, rw both (e ∙ ap (λ x. x ∷ u) same))
  | inr other ↦ (collapse (d ∷ s), rw other refl)
]

abbrev head_or : ℕ → Text → ℕ
head_or d [] = d
head_or d (c ∷ s) = c

no_double-cons :
    (c : ℕ) (s : Text) (d : ℕ) (u : Text)
    → s ≡ d ∷ u
    → (c == b'/' && d == b'/') ≡ false
    → no_double s ≡ true
    → no_double (c ∷ s) ≡ true
no_double-cons c [] d u e h k = cc
no_double-cons c (x ∷ s) d u e h k =
    let same : d ≡ x = sym (ap (head_or d) e) in
    let off : (c == b'/' && x == b'/') ≡ false = rw same at h in rw (off, k) refl

collapse-no_double : (s : Text) → no_double (collapse s) ≡ true
unfolding collapse
collapse-no_double [] = refl
collapse-no_double (c ∷ []) = refl
collapse-no_double (c ∷ d ∷ s) = elim (Bool-cases (c == b'/' && d == b'/')) [
  | inl both ↦ rw both (collapse-no_double (d ∷ s))
  | inr other ↦
      let (u, e) = collapse-head d s in
      rw other (no_double-cons c (collapse (d ∷ s)) d u e other (collapse-no_double (d ∷ s)))
]

add_leading-rooted :
    (s : Text)
    → no_double s ≡ true
    → (u : Text) × (add_leading s ≡ b'/' ∷ u) × (no_double (add_leading s) ≡ true)
unfolding add_leading
add_leading-rooted [] h = ([], refl, refl)
add_leading-rooted (c ∷ s) h = elim (Bool-cases (c == b'/')) [
  | inl slash ↦
      let same : c ≡ b'/' = ground (arith, slash) in
      (s, rw slash (ap (λ x. x ∷ s) same), rw slash h)
  | inr other ↦ (c ∷ s, rw other refl, rw other (rw (other, h) refl))
]

-- What dropping the slash at the end leaves of two units or more with no double slashes.
drop_trailing-clean :
    (c d : ℕ) (s : Text)
    → no_double (c ∷ d ∷ s) ≡ true
    → (u : Text) × (drop_trailing (c ∷ d ∷ s) ≡ c ∷ u)
      × (no_double (c ∷ u) ≡ true)
      × (ends_in_slash (c ∷ u) ≡ false)
unfolding drop_trailing
drop_trailing-clean c d [] h = elim (Bool-cases (d == b'/')) [
  | inl slash ↦ ([], rw slash refl, refl, ground (arith, slash, h))
  | inr other ↦ (d ∷ [], rw other refl, h, other)
]
drop_trailing-clean c d (e ∷ s) h =
    let first : (c == b'/' && d == b'/') ≡ false = ground (arith, h) in
    let later : no_double (d ∷ e ∷ s) ≡ true = ground (arith, h) in
    let (u, same, single, ends) = drop_trailing-clean d e s later in
    (d ∷ u, ap (λ t. c ∷ t) same, rw (first, single) refl, ends)

rooted-IsPathname : (s u : Text) → s ≡ b'/' ∷ u → no_double s ≡ true → IsPathname (drop_trailing s)
unfolding drop_trailing
rooted-IsPathname s [] e h =
    rw e (record { rest = []; rooted = refl; single = refl; open_ended = inl refl })
rooted-IsPathname s (d ∷ u) e h =
    let (v, same, single, ends) = drop_trailing-clean b'/' d u (rw e at h) in
    rw (e, same) (record { rest = v; rooted = refl; single = single; open_ended = inr ends })

-- Every normalized pathname starts with a slash, has no two slashes side by side, and does not end in
-- a slash unless it is the root.
pub normalize_pathname-IsPathname : (s : Text) → IsPathname (normalize_pathname s)
unfolding normalize_pathname
normalize_pathname-IsPathname s =
    let (u, rooted, single) = add_leading-rooted (collapse s) (collapse-no_double s) in
    rooted-IsPathname (add_leading (collapse s)) u rooted single

collapse-single : (s : Text) → no_double s ≡ true → collapse s ≡ s
unfolding collapse
collapse-single [] h = refl
collapse-single (c ∷ []) h = refl
collapse-single (c ∷ d ∷ s) h =
    let first : (c == b'/' && d == b'/') ≡ false = ground (arith, h) in
    let later : no_double (d ∷ s) ≡ true = ground (arith, h) in
    rw first (ap (λ t. c ∷ t) (collapse-single (d ∷ s) later))

drop_trailing-open :
    (c d : ℕ) (s : Text) → ends_in_slash (c ∷ d ∷ s) ≡ false → drop_trailing (c ∷ d ∷ s) ≡ c ∷ d ∷ s
unfolding drop_trailing
drop_trailing-open c d [] h = rw h refl
drop_trailing-open c d (e ∷ s) h = ap (λ t. c ∷ t) (drop_trailing-open d e s h)

fixed :
    (rest : Text)
    → (rest ≡ []) ⊎ (ends_in_slash (b'/' ∷ rest) ≡ false)
    → drop_trailing (b'/' ∷ rest) ≡ b'/' ∷ rest
unfolding drop_trailing
fixed [] h = refl
fixed (d ∷ s) (inl e) = cc
fixed (d ∷ s) (inr ends) = drop_trailing-open b'/' d s ends

-- A pathname that is normalized stays as it is.
pub normalize_pathname_idem :
    (s : Text) → normalize_pathname (normalize_pathname s) ≡ normalize_pathname s
unfolding normalize_pathname add_leading
normalize_pathname_idem s =
    let is = normalize_pathname-IsPathname s in
    let again : drop_trailing (b'/' ∷ is.rest) ≡ b'/' ∷ is.rest =
      fixed is.rest
        (subst (λ p. (is.rest ≡ []) ⊎ (ends_in_slash p ≡ false)) is.rooted is.open_ended) in
    let single : no_double (b'/' ∷ is.rest) ≡ true =
      subst (λ p. no_double p ≡ true) is.rooted is.single in
    ap (λ p. drop_trailing (add_leading (collapse p))) is.rooted
    ∙ ap (λ p. drop_trailing (add_leading p)) (collapse-single (b'/' ∷ is.rest) single)
    ∙ again
    ∙ sym is.rooted
