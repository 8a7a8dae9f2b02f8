-- ===== src/Destination/Unique.antt =====
-- `Array.from(new Set(list))` (src/webhook-dns-safety/webhook-dns-safety.service.ts).
use mathlib.Core.List.{Memᴰ}
use facturify.Base.{
  ◌≤◌, ◌≡◌, refl, sym, ap, Bool, true, false, not, List, [], ◌∷◌, map, filter, length, All, All-map,
  Memᴰ-filter, length-filter, arith, Bool-cases, inl, inr,
}
use mathlib.Core.List.Memᴰ
use facturify.Js.Text.{Text, text_eq}
use facturify.Js.Text.Laws.{eq_of_text_eq}
use facturify.Destination.Service.{unique}

pub unique-Memᴰ : (ss : List Text) (s : Text) → Memᴰ s ss → Memᴰ s (unique ss)
unfolding unique
unique-Memᴰ [] s m = elim m [ ]
unique-Memᴰ (t ∷ ss) s m = elim (Memᴰ.cases_cons m) [
  | inl e ↦ Memᴰ.head e
  | inr later ↦ elim (Bool-cases (text_eq t s)) [
    | inl same ↦ Memᴰ.head (sym (eq_of_text_eq t s same))
    | inr apart ↦ Memᴰ.tail (
        (Memᴰ-filter (λ u. not (text_eq t u)) s (unique ss)).1
          (unique-Memᴰ ss s later, rw apart refl))
  ]
]

-- No text stands twice.
abbrev pub Distinct : List Text → Type 0
Distinct [] = Unit
Distinct (s ∷ ss) = All (λ t. text_eq s t ≡ false) ss × Distinct ss

filter-keeps :
    (P : Text → Type 0) (p : Text → Bool) (ss : List Text) → All P ss → All P (filter p ss)
filter-keeps P p [] h = tt
filter-keeps P p (s ∷ ss) (q, h) = elim (Bool-cases (p s)) [
  | inl kept ↦ rw kept (q, filter-keeps P p ss h)
  | inr dropped ↦ rw dropped (filter-keeps P p ss h)
]

filter-Distinct : (p : Text → Bool) (ss : List Text) → Distinct ss → Distinct (filter p ss)
filter-Distinct p [] h = tt
filter-Distinct p (s ∷ ss) (apart, h) = elim (Bool-cases (p s)) [
  | inl kept ↦ rw kept (filter-keeps (λ t. text_eq s t ≡ false) p ss apart, filter-Distinct p ss h)
  | inr dropped ↦ rw dropped (filter-Distinct p ss h)
]

filter-All : (p : Text → Bool) (ss : List Text) → All (λ t. p t ≡ true) (filter p ss)
filter-All p [] = tt
filter-All p (s ∷ ss) = elim (Bool-cases (p s)) [
  | inl kept ↦ rw kept (kept, filter-All p ss)
  | inr dropped ↦ rw dropped (filter-All p ss)
]

pub unique-Distinct : (ss : List Text) → Distinct (unique ss)
unfolding unique
unique-Distinct [] = tt
unique-Distinct (s ∷ ss) = (
  All-map (λ t. not (text_eq s t) ≡ true) (λ t. text_eq s t ≡ false)
      (filter (λ t. not (text_eq s t)) (unique ss)) (λ t h. ground (arith, h))
      (filter-All (λ t. not (text_eq s t)) (unique ss)),
  filter-Distinct (λ t. not (text_eq s t)) (unique ss) (unique-Distinct ss),
)

pub length-unique : (ss : List Text) → length (unique ss) ≤ length ss
unfolding unique
length-unique [] = omega arith
length-unique (s ∷ ss) =
    omega (arith, length-unique ss, length-filter (λ t. not (text_eq s t)) (unique ss))

pub Memᴰ-map : (f : Text → Text) (ss : List Text) (s : Text) → Memᴰ s ss → Memᴰ (f s) (map f ss)
Memᴰ-map f [] s m = elim m [ ]
Memᴰ-map f (t ∷ ss) s m = elim (Memᴰ.cases_cons m) [
  | inl e ↦ Memᴰ.head (ap f e)
  | inr later ↦ Memᴰ.tail (Memᴰ-map f ss s later)
]

pub All-Memᴰ : (P : Text → Type 0) (ss : List Text) (s : Text) → All P ss → Memᴰ s ss → P s
All-Memᴰ P [] s h m = elim m [ ]
All-Memᴰ P (t ∷ ss) s (q, h) m = elim (Memᴰ.cases_cons m) [
  | inl e ↦ rw e q
  | inr later ↦ All-Memᴰ P ss s h later
]
