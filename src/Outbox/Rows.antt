-- ===== src/Outbox/Rows.antt =====
-- Lists of rows under the statements of the table of events (src/outbox/outbox.service.ts).
use mathlib.Core.List.{Memᴰ}
use mathlib.Core.List.Memᴰ
use facturify.Base.{
  ℕ, zero, suc, ◌≡◌, ◌≢◌, refl, sym, ap, ◌∙◌, subst, Bool, ◌&&◌, List, [], ◌∷◌, map, filter, take,
  length, min, arith, inl, inr, Bool-cases, if◌then◌else◌, Memᴰ-filter,
}
use facturify.Js.Text.{Text, text_eq}
use facturify.Js.Text.Laws.{eq_of_text_eq, text_eq_refl}
use facturify.Outbox.{EventUpdate, completed, pending, dead}
use facturify.Outbox.Table.{OutboxEvent, has_id, is_waiting, is_claimable, updated, change, KeepsId}

module _ {A : Type 0} where
  pub filter-map :
      (p q : A → Bool) (g : A → A) (xs : List A)
      → ((x : A) → p (g x) ≡ q x)
      → filter p (map g xs) ≡ map g (filter q xs)
  filter-map p q g [] h = refl
  filter-map p q g (x ∷ xs) h = elim (Bool-cases (q x)) [
    | inl kept ↦ rw (h x, kept, filter-map p q g xs h) refl
    | inr dropped ↦ rw (h x, dropped, filter-map p q g xs h) refl
  ]

  pub filter-both :
      (p q : A → Bool) (xs : List A) → filter (λ x. p x && q x) xs ≡ filter q (filter p xs)
  filter-both p q [] = refl
  filter-both p q (x ∷ xs) = elim (Bool-cases (p x)) [
    | inr dropped ↦ rw (dropped, filter-both p q xs) refl
    | inl kept ↦ elim (Bool-cases (q x)) [
      | inl too ↦ rw (kept, too, filter-both p q xs) refl
      | inr dropped ↦ rw (kept, dropped, filter-both p q xs) refl
    ]
  ]

  pub take-map : (g : A → A) (n : ℕ) (xs : List A) → take n (map g xs) ≡ map g (take n xs)
  take-map g zero xs = refl
  take-map g (suc n) [] = refl
  take-map g (suc n) (x ∷ xs) = ap (λ ys. g x ∷ ys) (take-map g n xs)

  pub length-map : (g : A → A) (xs : List A) → length (map g xs) ≡ length xs
  length-map g [] = refl
  length-map g (x ∷ xs) = ap suc (length-map g xs)

  pub length-take : (n : ℕ) (xs : List A) → length (take n xs) ≡ min n (length xs)
  length-take zero xs = omega arith
  length-take (suc n) [] = omega arith
  length-take (suc n) (x ∷ xs) = omega (arith, length-take n xs)

  pub Memᴰ-map : (g : A → A) (xs : List A) (x : A) → Memᴰ x xs → Memᴰ (g x) (map g xs)
  Memᴰ-map g [] x m = elim m [ ]
  Memᴰ-map g (y ∷ xs) x m = elim (Memᴰ.cases_cons m) [
    | inl e ↦ Memᴰ.head (ap g e)
    | inr later ↦ Memᴰ.tail (Memᴰ-map g xs x later)
  ]

  pub Memᴰ-take : (n : ℕ) (xs : List A) (x : A) → Memᴰ x (take n xs) → Memᴰ x xs
  Memᴰ-take zero xs x m = elim m [ ]
  Memᴰ-take (suc n) [] x m = elim m [ ]
  Memᴰ-take (suc n) (y ∷ xs) x m = elim (Memᴰ.cases_cons m) [
    | inl e ↦ Memᴰ.head e
    | inr later ↦ Memᴰ.tail (Memᴰ-take n xs x later)
  ]

-- The one row of an identifier.
abbrev pub IsRow : Text → OutboxEvent → List OutboxEvent → Type 0
IsRow id e es = filter (has_id id) es ≡ e ∷ []

change-id :
    (w : OutboxEvent → Bool) (g : OutboxEvent → OutboxEvent)
    → KeepsId g
    → (e : OutboxEvent) → (change w g e).id ≡ e.id
change-id w g keeps e = elim (Bool-cases (w e)) [
  | inl hit ↦ rw hit (keeps e)
  | inr miss ↦ rw miss refl
]

pub updated-id : (now : ℕ) (u : EventUpdate) → KeepsId (updated now u)
updated-id now completed e = refl
updated-id now (pending ms) e = refl
updated-id now (dead ms) e = refl

pub IsRow-change :
    (id : Text) (w : OutboxEvent → Bool) (g : OutboxEvent → OutboxEvent) (e : OutboxEvent)
    (es : List OutboxEvent)
    → KeepsId g
    → IsRow id e es
    → IsRow id (change w g e) (map (change w g) es)
IsRow-change id w g e es keeps is =
    filter-map (has_id id) (has_id id) (change w g) es
      (λ x. ap (λ i. text_eq i id) (change-id w g keeps x))
    ∙ ap (map (change w g)) is

pub IsRow-id : (id : Text) (e : OutboxEvent) (es : List OutboxEvent) → IsRow id e es → e.id ≡ id
IsRow-id id e es is =
    let found : Memᴰ e (filter (has_id id) es) = rw is (Memᴰ.head refl) in
    eq_of_text_eq e.id id ((Memᴰ-filter (has_id id) e es).0 found).1

pub same_row :
    (id : Text) (e f : OutboxEvent) (es : List OutboxEvent) → IsRow id e es → IsRow id f es → e ≡ f
same_row id e f es is is' = let one : Path (List OutboxEvent) (e ∷ []) (f ∷ []) = sym is ∙ is' in cc

pub count-claimable :
    (id : Text) (e : OutboxEvent) (es : List OutboxEvent)
    → IsRow id e es
    → length (filter (is_claimable id) es) ≡ (if is_waiting e.status then 1 else 0)
count-claimable id e es is = elim (Bool-cases (is_waiting e.status)) [
  | inl w ↦ rw (filter-both (has_id id) (λ f. is_waiting f.status) es, is, w) refl
  | inr w ↦ rw (filter-both (has_id id) (λ f. is_waiting f.status) es, is, w) refl
]

-- No identifier stands twice.
abbrev pub Distinct : List OutboxEvent → Type 0
Distinct [] = Unit
Distinct (e ∷ es) = ((f : OutboxEvent) → Memᴰ f es → e.id ≢ f.id) × Distinct es

no_row :
    (id : Text) (es : List OutboxEvent)
    → ((f : OutboxEvent) → Memᴰ f es → id ≢ f.id)
    → filter (has_id id) es ≡ []
no_row id [] apart = refl
no_row id (f ∷ es) apart = elim (Bool-cases (text_eq f.id id)) [
  | inl same ↦ absurd (apart f (Memᴰ.head refl) (sym (eq_of_text_eq f.id id same)))
  | inr differs ↦ rw differs (no_row id es (λ g m. apart g (Memᴰ.tail m)))
]

pub Distinct-IsRow :
    (es : List OutboxEvent) (e : OutboxEvent) → Distinct es → Memᴰ e es → IsRow e.id e es
Distinct-IsRow [] e d m = elim m [ ]
Distinct-IsRow (f ∷ es) e (apart, d) m = elim (Memᴰ.cases_cons m) [
  | inl is ↦
      let first : IsRow f.id f (f ∷ es) =
        rw (text_eq_refl f.id) (ap (λ gs. f ∷ gs) (no_row f.id es apart)) in
      subst (λ x. IsRow x.id x (f ∷ es)) (sym is) first
  | inr later ↦ elim (Bool-cases (text_eq f.id e.id)) [
    | inl same ↦ absurd (apart e later (eq_of_text_eq f.id e.id same))
    | inr differs ↦ rw differs (Distinct-IsRow es e d later)
  ]
]

pub Distinct-filter :
    (w : OutboxEvent → Bool) (es : List OutboxEvent) → Distinct es → Distinct (filter w es)
Distinct-filter w [] d = tt
Distinct-filter w (e ∷ es) (apart, d) = elim (Bool-cases (w e)) [
  | inl kept ↦ rw kept (λ f m. apart f ((Memᴰ-filter w f es).0 m).0, Distinct-filter w es d)
  | inr dropped ↦ rw dropped (Distinct-filter w es d)
]

pub Distinct-take : (n : ℕ) (es : List OutboxEvent) → Distinct es → Distinct (take n es)
Distinct-take zero es d = tt
Distinct-take (suc n) [] d = tt
Distinct-take (suc n) (e ∷ es) (apart, d) =
    (λ f m. apart f (Memᴰ-take n es f m), Distinct-take n es d)

Memᴰ_of_map :
    (g : OutboxEvent → OutboxEvent) (es : List OutboxEvent) (f : OutboxEvent)
    → Memᴰ f (map g es)
    → (e : OutboxEvent) × Memᴰ e es × (f ≡ g e)
Memᴰ_of_map g [] f m = elim m [ ]
Memᴰ_of_map g (e ∷ es) f m = elim (Memᴰ.cases_cons m) [
  | inl is ↦ (e, Memᴰ.head refl, is)
  | inr later ↦ let (e', m', is) = Memᴰ_of_map g es f later in (e', Memᴰ.tail m', is)
]

pub Distinct-change :
    (w : OutboxEvent → Bool) (g : OutboxEvent → OutboxEvent) (es : List OutboxEvent)
    → KeepsId g
    → Distinct es
    → Distinct (map (change w g) es)
Distinct-change w g [] keeps d = tt
Distinct-change w g (e ∷ es) keeps (apart, d) = (
  λ f m same.
      let (e', m', is) = Memᴰ_of_map (change w g) es f m in
      apart e' m' (sym (change-id w g keeps e) ∙ same ∙ ap (λ x. x.id) is ∙ change-id w g keeps e'),
  Distinct-change w g es keeps d,
)
