-- ===== src/Password/Names.antt =====
-- The parts of a name that `split` finds (src/password-policy/password-policy.service.ts).
use mathlib.Core.List.{Memᴰ}
use facturify.Base.{
  ℕ, ◌≡◌, ◌≤◌, ◌⊎◌, refl, Bool, true, false, not, ◌&&◌, ◌||◌, List, [], ◌∷◌, ◌++◌, all, leb, ◌==◌,
  length, arith, inl, inr, Bool-cases,
}
use facturify.Js.Text.{Text, is_space}
use facturify.Password.Service.{is_separator, starts_separated, split_name}

-- White space, a comma, a dot or an underscore.
abbrev pub is_between : ℕ → Bool
is_between c = is_space c || c == b',' || c == b'.' || c == b'_'

-- A unit from the small a on that is no white space.
abbrev pub is_letter : ℕ → Bool
is_letter c = leb b'a' c && not (is_space c)

abbrev pub EndsPart : Text → Type 0
EndsPart [] = Unit
EndsPart (c ∷ s) = is_between c ≡ true

-- A part of a name: letters that stand at its start or behind what stands between parts, and at its end or before
-- what stands between parts.
pub record IsPart (part name : Text) : Type 0 where
  pub after : Text
  pub letters : all is_letter part ≡ true
  pub ends : EndsPart after
  pub starts :
      (name ≡ part ++ after)
      ⊎ ((before : Text) × (c : ℕ) × (is_between c ≡ true)
          × (name ≡ before ++ (c ∷ (part ++ after))))

between_separates : (c : ℕ) → is_between c ≡ true → is_separator c ≡ true
between_separates c h = ground (arith, h)

letter_keeps : (c : ℕ) → is_letter c ≡ true → is_separator c ≡ false
letter_keeps c h = ground (arith, h)

split_name-separated :
    (c : ℕ) (s : Text) → is_separator c ≡ true → (ts : List Text) × (split_name (c ∷ s) ≡ [] ∷ ts)
unfolding split_name
split_name-separated c [] h = rw h ([] ∷ [], refl)
split_name-separated c (d ∷ s) h = elim (Bool-cases (is_separator d)) [
  | inl again ↦ let (ts, e) = split_name-separated d s again in (ts, rw (h, again) (rw again at e))
  | inr last ↦ (split_name (d ∷ s), rw (h, last) refl)
]

split_name-ended : (after : Text) → EndsPart after → (ts : List Text) × (split_name after ≡ [] ∷ ts)
unfolding split_name
split_name-ended [] h = ([], refl)
split_name-ended (c ∷ s) h = split_name-separated c s (between_separates c h)

split_name-part :
    (part after : Text)
    → all is_letter part ≡ true
    → EndsPart after
    → (ts : List Text) × (split_name (part ++ after) ≡ part ∷ ts)
unfolding split_name
split_name-part [] after h ends = split_name-ended after ends
split_name-part (c ∷ part) after h ends =
    let first : is_separator c ≡ false = letter_keeps c (ground (arith, h)) in
    let rest : all is_letter part ≡ true = ground (arith, h) in
    let (ts, e) = split_name-part part after rest ends in (ts, rw (first, e) refl)

-- Behind a separator, the parts of a text that starts with none are not the first.
split_name-behind :
    (before : Text) (c : ℕ) (s part : Text)
    → is_separator c ≡ true
    → starts_separated s ≡ false
    → Memᴰ part (split_name s)
    → (t : Text) × (ts : List Text) × (split_name (before ++ (c ∷ s)) ≡ t ∷ ts) × Memᴰ part ts
unfolding split_name
split_name-behind [] c s part h k m = ([], split_name s, rw (h, k) refl, m)
split_name-behind (d ∷ before) c s part h k m =
    let (t, ts, e, found) = split_name-behind before c s part h k m in
    elim (Bool-cases (is_separator d)) [
      | inr kept ↦ (d ∷ t, ts, rw (kept, e) refl, found)
      | inl separates ↦ elim (Bool-cases (starts_separated (before ++ (c ∷ s)))) [
        | inl again ↦ (t, ts, rw (separates, again) e, found)
        | inr last ↦ ([], t ∷ ts, rw (separates, last, e) refl, Memᴰ.tail found)
      ]
    ]

letters-start :
    (part after : Text)
    → 1 ≤ length part
    → all is_letter part ≡ true
    → starts_separated (part ++ after) ≡ false
letters-start [] after h k = absurd (omega (arith, h))
letters-start (c ∷ part) after h k = letter_keeps c (ground (arith, k))

pub split_name-IsPart :
    (part name : Text) → IsPart part name → 1 ≤ length part → Memᴰ part (split_name name)
split_name-IsPart part name is filled =
    let (ts, e) = split_name-part part is.after is.letters is.ends in
    let here : Memᴰ part (split_name (part ++ is.after)) = rw e (Memᴰ.head refl) in
    elim is.starts [
      | inl whole ↦ rw whole here
      | inr (before, c, between, whole) ↦
          let (t, us, same, found) =
            split_name-behind before c (part ++ is.after) part (between_separates c between)
              (letters-start part is.after filled is.letters) here in
          rw (whole, same) (Memᴰ.tail found)
    ]
