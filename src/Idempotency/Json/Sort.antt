-- ===== src/Idempotency/Json/Sort.antt =====
-- `keys.sort()`: by UTF-16 code units.
use facturify.Base.{
  ◌≡◌, ◌≢◌, refl, sym, ap, ◌∙◌, Bool, true, false, ◌&&◌, ◌||◌, List, [], ◌∷◌, ltb, ◌==◌,
  if◌then◌else◌, arith, Bool-cases, inl, inr,
}
use facturify.Js.Text.{Text}

-- `<` on strings.
unfoldable pub text_lt : Text → Text → Bool
text_lt s [] = false
text_lt [] (d ∷ t) = true
text_lt (c ∷ s) (d ∷ t) = ltb c d || (c == d && text_lt s t)

pub text_lt-connected : (s t : Text) → text_lt s t ≡ false → text_lt t s ≡ false → s ≡ t
unfolding text_lt
text_lt-connected [] [] h k = refl
text_lt-connected [] (d ∷ t) h k = cc
text_lt-connected (c ∷ s) [] h k = cc
text_lt-connected (c ∷ s) (d ∷ t) h k = ground (arith, text_lt-connected s t)

pub text_lt-asymmetric : (s t : Text) → text_lt s t ≡ true → text_lt t s ≡ false
unfolding text_lt
text_lt-asymmetric [] [] h = cc
text_lt-asymmetric [] (d ∷ t) h = refl
text_lt-asymmetric (c ∷ s) [] h = cc
text_lt-asymmetric (c ∷ s) (d ∷ t) h = ground (arith, text_lt-asymmetric s t)

-- What is not above y is below what y is below.
pub text_lt-between : (y a b : Text) → text_lt y a ≡ false → text_lt y b ≡ true → text_lt a b ≡ true
unfolding text_lt
text_lt-between [] [] [] h k = cc
text_lt-between [] [] (d ∷ b) h k = refl
text_lt-between [] (c ∷ a) b h k = cc
text_lt-between (e ∷ y) a [] h k = cc
text_lt-between (e ∷ y) [] (d ∷ b) h k = refl
text_lt-between (e ∷ y) (c ∷ a) (d ∷ b) h k = ground (arith, text_lt-between y a b)

module _ {ℓ} {A : Type ℓ} where
  unfoldable pub insert_entry : Text × A → List (Text × A) → List (Text × A)
  unfolding text_lt
  insert_entry x [] = x ∷ []
  insert_entry x (y ∷ l) =
      let rest = insert_entry x l in if text_lt y.0 x.0 then y ∷ rest else x ∷ y ∷ l

  unfoldable pub sort_entries : List (Text × A) → List (Text × A)
  unfolding insert_entry
  sort_entries [] = []
  sort_entries (x ∷ l) = insert_entry x (sort_entries l)

  insert_entry-below :
      (x y : Text × A) (l : List (Text × A))
      → text_lt y.0 x.0 ≡ true
      → insert_entry x (y ∷ l) ≡ y ∷ insert_entry x l
  unfolding insert_entry
  insert_entry-below x y l h = rw h refl

  insert_entry-above :
      (x y : Text × A) (l : List (Text × A))
      → text_lt y.0 x.0 ≡ false
      → insert_entry x (y ∷ l) ≡ x ∷ y ∷ l
  unfolding insert_entry
  insert_entry-above x y l h = rw h refl

  singleton : (a : Text × A) → insert_entry a [] ≡ a ∷ []
  unfolding insert_entry
  singleton a = refl

  other_way : (a b : Text × A) → a.0 ≢ b.0 → text_lt a.0 b.0 ≡ false → text_lt b.0 a.0 ≡ true
  other_way a b h le = elim (Bool-cases (text_lt b.0 a.0)) [
    | inl lt ↦ lt
    | inr ge ↦ absurd (h (text_lt-connected a.0 b.0 le ge))
  ]

  -- Two entries at the head, in either order.
  heads_swap :
      (a b : Text × A) (l : List (Text × A))
      → text_lt a.0 b.0 ≡ true
      → insert_entry a l ≡ a ∷ l
      → insert_entry b l ≡ b ∷ l
      → insert_entry a (b ∷ l) ≡ insert_entry b (a ∷ l)
  heads_swap a b l h ha hb =
      insert_entry-above a b l (text_lt-asymmetric a.0 b.0 h)
      ∙ sym (insert_entry-below b a l h ∙ ap (λ t. a ∷ t) hb)

  below_both :
      (a b y : Text × A) (l : List (Text × A))
      → text_lt y.0 a.0 ≡ true
      → text_lt y.0 b.0 ≡ true
      → insert_entry a (insert_entry b l) ≡ insert_entry b (insert_entry a l)
      → insert_entry a (insert_entry b (y ∷ l)) ≡ insert_entry b (insert_entry a (y ∷ l))
  below_both a b y l ya yb e =
      rw
        (
          insert_entry-below b y l yb,
          insert_entry-below a y l ya,
          insert_entry-below a y (insert_entry b l) ya,
          insert_entry-below b y (insert_entry a l) yb,
          e,
        )
        refl

  around :
      (a b y : Text × A) (l : List (Text × A))
      → text_lt y.0 a.0 ≡ false
      → text_lt y.0 b.0 ≡ true
      → insert_entry a (insert_entry b (y ∷ l)) ≡ insert_entry b (insert_entry a (y ∷ l))
  around a b y l na yb =
      rw
        (
          insert_entry-below b y l yb,
          insert_entry-above a y l na,
          insert_entry-above a y (insert_entry b l) na,
          insert_entry-below b a (y ∷ l) (text_lt-between y.0 a.0 b.0 na yb),
          insert_entry-below b y l yb,
        )
        refl

  above_both :
      (a b y : Text × A) (l : List (Text × A))
      → text_lt y.0 a.0 ≡ false
      → text_lt y.0 b.0 ≡ false
      → a.0 ≢ b.0
      → insert_entry a (insert_entry b (y ∷ l)) ≡ insert_entry b (insert_entry a (y ∷ l))
  above_both a b y l na nb h =
      let ia = insert_entry-above a y l na in
      let ib = insert_entry-above b y l nb in
      elim (Bool-cases (text_lt a.0 b.0)) [
        | inl lt ↦
            ap (insert_entry a) ib ∙ heads_swap a b (y ∷ l) lt ia ib ∙ sym (ap (insert_entry b) ia)
        | inr le ↦
            ap (insert_entry a) ib
            ∙ sym (heads_swap b a (y ∷ l) (other_way a b h le) ib ia)
            ∙ sym (ap (insert_entry b) ia)
      ]

  -- Entries of different keys can be inserted in either order.
  pub insert_entry_comm :
      (a b : Text × A) (l : List (Text × A))
      → a.0 ≢ b.0
      → insert_entry a (insert_entry b l) ≡ insert_entry b (insert_entry a l)
  unfolding insert_entry
  insert_entry_comm a b [] h = elim (Bool-cases (text_lt a.0 b.0)) [
    | inl lt ↦ heads_swap a b [] lt (singleton a) (singleton b)
    | inr le ↦ sym (heads_swap b a [] (other_way a b h le) (singleton b) (singleton a))
  ]
  insert_entry_comm a b (y ∷ l) h = elim (Bool-cases (text_lt y.0 a.0)) [
    | inl ya ↦ elim (Bool-cases (text_lt y.0 b.0)) [
      | inl yb ↦ below_both a b y l ya yb (insert_entry_comm a b l h)
      | inr nb ↦ sym (around b a y l nb ya)
    ]
    | inr na ↦ elim (Bool-cases (text_lt y.0 b.0)) [
      | inl yb ↦ around a b y l na yb
      | inr nb ↦ above_both a b y l na nb h
    ]
  ]
