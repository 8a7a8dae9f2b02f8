-- ===== src/Js/Text/Laws.antt =====
-- Equality of texts, and membership.
use mathlib.Core.List.{Memᴰ}
use facturify.Base.{
  ◌≡◌, ◌≢◌, false, refl, sym, ◌↔◌, inl, inr, true, List, [], ◌∷◌, arith, Bool-cases,
}
use facturify.Js.Text.{Text, text_eq, includes}

pub eq_of_text_eq : (s t : Text) → text_eq s t ≡ true → s ≡ t
unfolding text_eq
eq_of_text_eq [] [] h = refl
eq_of_text_eq [] (y ∷ ys) h = cc
eq_of_text_eq (x ∷ xs) [] h = cc
eq_of_text_eq (x ∷ xs) (y ∷ ys) h = ground (arith, eq_of_text_eq xs ys)

pub text_eq_refl : (s : Text) → text_eq s s ≡ true
unfolding text_eq
text_eq_refl [] = refl
text_eq_refl (x ∷ xs) = ground (arith, text_eq_refl xs)

pub text_eq_iff : (s t : Text) → (text_eq s t ≡ true) ↔ (s ≡ t)
text_eq_iff s t = (eq_of_text_eq s t, λ e. rw e (text_eq_refl t))

pub includes-Memᴰ : (ts : List Text) (s : Text) → includes ts s ≡ true → Memᴰ s ts
unfolding includes
includes-Memᴰ [] s h = cc
includes-Memᴰ (t ∷ ts) s h = elim (Bool-cases (text_eq t s)) [
  | inl same ↦ Memᴰ.head (sym (eq_of_text_eq t s same))
  | inr other ↦ Memᴰ.tail (includes-Memᴰ ts s (rw (other, includes) at h))
]

pub Memᴰ-includes : {s : Text} {ts : List Text} → Memᴰ s ts → includes ts s ≡ true
unfolding includes
Memᴰ-includes {ts = []} m = elim m [ ]
Memᴰ-includes {s} {ts = t ∷ ts} (Memᴰ.head e) = rw (← e, text_eq_refl s)
Memᴰ-includes {s} {ts = t ∷ ts} (Memᴰ.tail m) = ground (arith, Memᴰ-includes m)

-- A text is included exactly when it is a member.
pub includes_iff : (ts : List Text) (s : Text) → (includes ts s ≡ true) ↔ Memᴰ s ts
includes_iff ts s = (includes-Memᴰ ts s, Memᴰ-includes)

pub text_eq_of_distinct : (s t : Text) → s ≢ t → text_eq s t ≡ false
text_eq_of_distinct s t different = elim (Bool-cases (text_eq s t)) [
  | inl same ↦ absurd (different (eq_of_text_eq s t same))
  | inr apart ↦ apart
]
