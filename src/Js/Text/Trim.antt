-- ===== src/Js/Text/Trim.antt =====
-- `trim` leaves a trimmed text as it is, and a text with no white space too.
use facturify.Base.{
  ℕ, ◌≤◌, ◌≡◌, refl, ap, ◌∙◌, true, false, not, [], ◌∷◌, length, all, arith, Bool-cases, inl, inr,
}
use facturify.Js.Text.{Text, is_space, trim_start, trim_end_cons, trim_end, trim}

trim_start-cons : (c : ℕ) (s : Text) → is_space c ≡ false → trim_start (c ∷ s) ≡ c ∷ s
unfolding trim_start
trim_start-cons c s h = ground (arith, h)

trim_start_idem : (s : Text) → trim_start (trim_start s) ≡ trim_start s
unfolding trim_start
trim_start_idem [] = refl
trim_start_idem (c ∷ s) = elim (Bool-cases (is_space c)) [
  | inl space ↦ rw space (trim_start_idem s)
  | inr kept ↦ rw kept (trim_start-cons c s kept)
]

trim_end_cons_idem :
    (c : ℕ) (t : Text) → trim_end t ≡ t → trim_end (trim_end_cons c t) ≡ trim_end_cons c t
unfolding trim_end trim_end_cons
trim_end_cons_idem c [] h = elim (Bool-cases (is_space c)) [
  | inl space ↦ rw space refl
  | inr kept ↦ rw (kept, kept) refl
]
trim_end_cons_idem c (d ∷ t) h = rw h refl

trim_end_idem : (s : Text) → trim_end (trim_end s) ≡ trim_end s
unfolding trim_end
trim_end_idem [] = refl
trim_end_idem (c ∷ s) = trim_end_cons_idem c (trim_end s) (trim_end_idem s)

trim_end_cons-kept :
    (c : ℕ) (t : Text) → is_space c ≡ false → (u : Text) × (trim_end_cons c t ≡ c ∷ u)
unfolding trim_end_cons
trim_end_cons-kept c [] h = ([], ground (arith, h))
trim_end_cons-kept c (d ∷ t) h = (d ∷ t, refl)

length-trim_start : (s : Text) → length (trim_start s) ≤ length s
unfolding trim_start
length-trim_start [] = omega arith
length-trim_start (c ∷ s) = ground (arith, length-trim_start s)

trim_start-trim_end : (s : Text) → trim_start s ≡ s → trim_start (trim_end s) ≡ trim_end s
unfolding trim_start trim_end
trim_start-trim_end [] h = refl
trim_start-trim_end (c ∷ s) h = elim (Bool-cases (is_space c)) [
  | inl space ↦
      let shorter : trim_start s ≡ c ∷ s = rw space at h in
      absurd (omega (arith, ap length shorter, length-trim_start s))
  | inr kept ↦
      let (u, e) = trim_end_cons-kept c (trim_end s) kept in rw e (trim_start-cons c u kept)
]

pub trim_idem : (s : Text) → trim (trim s) ≡ trim s
unfolding trim
trim_idem s =
    ap trim_end (trim_start-trim_end (trim_start s) (trim_start_idem s))
    ∙ trim_end_idem (trim_start s)

trim_end-solid : (s : Text) → all (λ c. not (is_space c)) s ≡ true → trim_end s ≡ s
unfolding trim_end trim_end_cons
trim_end-solid [] h = refl
trim_end-solid (c ∷ []) h = ground (arith, h)
trim_end-solid (c ∷ d ∷ s) h =
    let rest : all (λ c. not (is_space c)) (d ∷ s) ≡ true = ground (arith, h) in
    rw (trim_end-solid (d ∷ s) rest) refl

pub trim-solid : (s : Text) → all (λ c. not (is_space c)) s ≡ true → trim s ≡ s
unfolding trim trim_start
trim-solid [] h = trim_end-solid [] h
trim-solid (c ∷ s) h =
    let kept : is_space c ≡ false = ground (arith, h) in rw kept (trim_end-solid (c ∷ s) h)
