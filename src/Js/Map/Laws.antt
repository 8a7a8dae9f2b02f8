-- ===== src/Js/Map/Laws.antt =====
-- Laws of `get`, `set`, `delete` and `size`, and maps whose keys are distinct.
use facturify.Base.{
  ◌+◌, ◌≤◌, ◌≡◌, ◌≢◌, refl, sym, none, some, [], ◌∷◌, arith, if◌then◌else◌, Bool-cases, inl, inr,
  All, All-map,
}
use mathlib.Core.Path.{subst, subst₂}
use facturify.Js.Text.{Text, text_eq}
use facturify.Js.Text.Laws.{text_eq_iff, text_eq_refl}
use facturify.Js.Map.{Map, get, set, delete, size}

module _ {ℓ} {V : Type ℓ} where
  pub get-set :
      (k j : Text) (v : V) (m : Map V)
      → get j (set k v m) ≡ (if text_eq k j then some v else get j m)
  unfolding get set
  get-set k j v [] = refl
  get-set k j v ((i, w) ∷ m) =
      ground (arith, text_eq_iff k j, text_eq_iff i k, text_eq_iff i j, get-set k j v m)

  pub get-set_self : (k : Text) (v : V) (m : Map V) → get k (set k v m) ≡ some v
  get-set_self k v m = simp (get-set, text_eq_refl)

  pub get-delete :
      (k j : Text) (m : Map V) → get j (delete k m) ≡ (if text_eq k j then none else get j m)
  unfolding get delete
  get-delete k j [] = ground arith
  get-delete k j ((i, w) ∷ m) =
      ground (arith, text_eq_iff k j, text_eq_iff i k, text_eq_iff i j, get-delete k j m)

  pub size-set :
      (k : Text) (v : V) (m : Map V)
      → size (set k v m) ≡ elim (get k m) [ none ↦ size m + 1 | some _ ↦ size m ]
  unfolding get set
  size-set k v [] = refl
  size-set k v ((i, w) ∷ m) = ground (arith, size-set k v m)

  pub size-delete-le : (k : Text) (m : Map V) → size (delete k m) ≤ size m
  unfolding delete
  size-delete-le k [] = omega arith
  size-delete-le k ((i, w) ∷ m) = ground (arith, size-delete-le k m)

  -- A key that is there makes room.
  pub size-delete : (k : Text) (m : Map V) → get k m ≢ none → size (delete k m) + 1 ≤ size m
  unfolding get delete
  size-delete k [] h = ground arith
  size-delete k ((i, w) ∷ m) h = ground (arith, size-delete k m, size-delete-le k m)

  -- No key occurs twice.
  abbrev pub Distinct : Map V → Type ℓ
  Distinct [] = Unit
  Distinct ((k, v) ∷ m) = (get k m ≡ none) × Distinct m

  pub set-Distinct : (k : Text) (v : V) (m : Map V) → Distinct m → Distinct (set k v m)
  unfolding get set
  set-Distinct k v [] d = (refl, tt)
  set-Distinct k v ((i, w) ∷ m) d =
      ground (arith, set-Distinct k v m, get-set k i v m, text_eq_iff i k, text_eq_iff k i)

  pub delete-Distinct : (k : Text) (m : Map V) → Distinct m → Distinct (delete k m)
  unfolding get delete
  delete-Distinct k [] d = tt
  delete-Distinct k ((i, w) ∷ m) d = ground (arith, delete-Distinct k m, get-delete k i m)

  -- A key is there.
  abbrev pub Has : Map V → Text → Type ℓ
  Has m k = get k m ≢ none

  Has-cons : (m : Map V) (j k : Text) (v : V) → Has m k → Has ((j, v) ∷ m) k
  unfolding get
  Has-cons m j k v h = ground arith

  pub All-Has : (m : Map V) → All (λ e. Has m e.0) m
  unfolding get
  All-Has [] = tt
  All-Has ((k, v) ∷ m) = (
    ground (arith, text_eq_refl k),
    All-map (λ e. Has m e.0) (λ e. Has ((k, v) ∷ m) e.0) m (λ e h. Has-cons m k e.0 v h)
        (All-Has m),
  )

  module _ {κ} (P : Text × V → Type κ) where
    pub All-delete : (k : Text) (m : Map V) → All P m → All P (delete k m)
    unfolding delete
    All-delete k [] h = tt
    All-delete k ((i, w) ∷ m) (p, h) = elim (Bool-cases (text_eq i k)) [
      | inl same ↦ rw same (All-delete k m h)
      | inr other ↦ rw other (p, All-delete k m h)
    ]

    -- The key of an entry stays when its value is set.
    pub All-set : (k : Text) (v : V) (m : Map V) → P (k, v) → All P m → All P (set k v m)
    unfolding set
    All-set k v [] q h = (q, tt)
    All-set k v ((i, w) ∷ m) q (p, h) = elim (Bool-cases (text_eq i k)) [
      | inl same ↦ rw same (subst (λ j. P (j, v)) (sym ((text_eq_iff i k).0 same)) q, h)
      | inr other ↦ rw other (p, All-set k v m q h)
    ]

    pub All-get : (k : Text) {v : V} (m : Map V) → All P m → get k m ≡ some v → P (k, v)
    unfolding get
    All-get k [] h e = cc
    All-get k {v} ((i, w) ∷ m) (p, h) e = elim (Bool-cases (text_eq i k)) [
      | inl same ↦
          let here : w ≡ v = ground arith in
          subst₂ (λ j u. P (j, u)) ((text_eq_iff i k).0 same) here p
      | inr other ↦ All-get k m h (rw (other, get) at e)
    ]
