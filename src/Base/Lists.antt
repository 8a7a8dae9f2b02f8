-- ===== src/Base/Lists.antt =====
-- List operations over the native numbers.
use Prim.Native.Nat.{ℕ, zero, suc, ◌+◌, ◌≤◌}
use mathlib.Core.Path.{◌≡◌}
use mathlib.Core.Bool.{Bool, true, false, ◌&&◌, ◌||◌}
use mathlib.Core.List.{List, [], ◌∷◌, ◌++◌, Memᴰ}
use mathlib.Core.List.Memᴰ
use mathlib.Core.Logic.{◌↔◌, inl, inr}
use native.Mathlib.Omega.{arith}
use facturify.Base.Tests.{if◌then◌else◌, Bool-cases}

module _ {ℓ} {A : Type ℓ} where
  abbrev pub length : List A → ℕ
  length [] = 0
  length (x ∷ xs) = suc (length xs)

  abbrev pub take : ℕ → List A → List A
  take zero xs = []
  take (suc n) [] = []
  take (suc n) (x ∷ xs) = x ∷ take n xs

  abbrev pub drop : ℕ → List A → List A
  drop zero xs = xs
  drop (suc n) [] = []
  drop (suc n) (x ∷ xs) = drop n xs

  abbrev pub all : (A → Bool) → List A → Bool
  all p [] = true
  all p (x ∷ xs) = p x && all p xs

  abbrev pub any : (A → Bool) → List A → Bool
  any p [] = false
  any p (x ∷ xs) = p x || any p xs

  abbrev pub filter : (A → Bool) → List A → List A
  filter p [] = []
  filter p (x ∷ xs) = let rest = filter p xs in if p x then x ∷ rest else rest

  Memᴰ_of_filter :
      (p : A → Bool) (a : A) (xs : List A) → Memᴰ a (filter p xs) → Memᴰ a xs × (p a ≡ true)
  Memᴰ_of_filter p a [] m = elim m [ ]
  Memᴰ_of_filter p a (x ∷ xs) m = elim (Bool-cases (p x)) [
    | inl kept ↦ elim (Memᴰ.cases_cons (rw kept at m)) [
      | inl e ↦ (Memᴰ.head e, rw e kept)
      | inr later ↦ let (found, passed) = Memᴰ_of_filter p a xs later in (Memᴰ.tail found, passed)
    ]
    | inr dropped ↦
        let (found, passed) = Memᴰ_of_filter p a xs (rw dropped at m) in (Memᴰ.tail found, passed)
  ]

  filter_of_Memᴰ :
      (p : A → Bool) (a : A) (xs : List A) → Memᴰ a xs → p a ≡ true → Memᴰ a (filter p xs)
  filter_of_Memᴰ p a [] m h = elim m [ ]
  filter_of_Memᴰ p a (x ∷ xs) m h = elim (Memᴰ.cases_cons m) [
    | inl e ↦ let kept : p x ≡ true = rw (← e) h in rw kept (Memᴰ.head e)
    | inr later ↦ elim (Bool-cases (p x)) [
      | inl kept ↦ rw kept (Memᴰ.tail (filter_of_Memᴰ p a xs later h))
      | inr dropped ↦ rw dropped (filter_of_Memᴰ p a xs later h)
    ]
  ]

  -- Membership in the list of the elements that pass a test.
  pub Memᴰ-filter :
      (p : A → Bool) (a : A) (xs : List A) → Memᴰ a (filter p xs) ↔ (Memᴰ a xs × (p a ≡ true))
  Memᴰ-filter p a xs = (Memᴰ_of_filter p a xs, λ (m, h). filter_of_Memᴰ p a xs m h)

  pub length-append : (xs ys : List A) → length (xs ++ ys) ≡ length xs + length ys
  length-append [] ys = omega arith
  length-append (x ∷ xs) ys = omega (arith, length-append xs ys)

  pub length-filter : (p : A → Bool) (xs : List A) → length (filter p xs) ≤ length xs
  length-filter p [] = omega arith
  length-filter p (x ∷ xs) = ground (arith, length-filter p xs)

module _ {ℓ κ} {A : Type ℓ} (P : A → Type κ) where
  abbrev pub All : List A → Type κ
  All [] = Unit
  All (x ∷ xs) = P x × All xs

pub All-map {ℓ κ μ} :
    {A : Type ℓ} (P : A → Type κ) (Q : A → Type μ) (xs : List A)
    → ((a : A) → P a → Q a)
    → All P xs
    → All Q xs
All-map P Q [] f h = tt
All-map P Q (x ∷ xs) f (p, h) = (f x p, All-map P Q xs f h)

pub All-both {ℓ κ μ} :
    {A : Type ℓ} (P : A → Type κ) (Q : A → Type μ) (xs : List A)
    → All P xs
    → All Q xs
    → All (λ a. P a × Q a) xs
All-both P Q [] h k = tt
All-both P Q (x ∷ xs) (p, h) (q, k) = ((p, q), All-both P Q xs h k)
