-- ===== src/Peru/Sanitizer/Hiding.antt =====
-- What the mask of a document number shows.
use facturify.Base.{
  ℕ, ◌≡◌, refl, sym, ap, ◌∙◌, true, false, not, none, [], ◌∷◌, take, drop, length, all, arith, ◌==◌,
  filter, ◌⊎◌, inl, inr,
}
use facturify.Js.Text.{Text, is_digit, is_space}
use facturify.Js.Text.Trim.{trim-solid}
use facturify.Js.Number.{Num}
use facturify.Js.Value.{string, is_nullish, to_text}
use facturify.Peru.Sanitizer.{strip_tags, is_control, sanitize, mask_text, mask_identity_document}

digit-solid : (s : Text) → all is_digit s ≡ true → all (λ c. not (is_space c)) s ≡ true
unfolding is_digit is_space
digit-solid [] h = refl
digit-solid (c ∷ s) h =
    let rest : all is_digit s ≡ true = ground (arith, h) in
    let head : is_space c ≡ false = ground (arith, h) in rw (head, digit-solid s rest) refl

strip_tags-digits : (s : Text) → all is_digit s ≡ true → strip_tags none s ≡ s
unfolding strip_tags is_digit
strip_tags-digits [] h = refl
strip_tags-digits (c ∷ s) h =
    let rest : all is_digit s ≡ true = ground (arith, h) in
    let head : (c == b'<') ≡ false = ground (arith, h) in rw (head, strip_tags-digits s rest) refl

filter-digits : (s : Text) → all is_digit s ≡ true → filter (λ c. not (is_control c)) s ≡ s
unfolding is_digit
filter-digits [] h = refl
filter-digits (c ∷ s) h =
    let rest : all is_digit s ≡ true = ground (arith, h) in
    let head : is_control c ≡ false = ground (arith, h) in rw (head, filter-digits s rest) refl

mask-digits :
    (show : Num → Text) (c : ℕ) (s : Text)
    → all is_digit (c ∷ s) ≡ true
    → mask_identity_document show (string (c ∷ s)) ≡ mask_text (c ∷ s)
unfolding mask_identity_document is_nullish to_text sanitize
mask-digits show c s h = rw (trim-solid (c ∷ s) (digit-solid (c ∷ s) h)) (
    ap mask_text (
      ap (filter (λ c. not (is_control c))) (strip_tags-digits (c ∷ s) h)
      ∙ filter-digits (c ∷ s) h))

mask_text-same :
    (n k : ℕ) (s t : Text)
    → ((n ≡ 11) × (k ≡ 7)) ⊎ ((n ≡ 8) × (k ≡ 6))
    → length s ≡ n
    → length t ≡ n
    → take 2 s ≡ take 2 t
    → drop k s ≡ drop k t
    → mask_text s ≡ mask_text t
unfolding mask_text
mask_text-same n k s t (inl (e, f)) h h' start end =
    let end' : drop 7 s ≡ drop 7 t = rw f at end in rw (h ∙ e, h' ∙ e, start, end') refl
mask_text-same n k s t (inr (e, f)) h h' start end =
    let end' : drop 6 s ≡ drop 6 t = rw f at end in rw (h ∙ e, h' ∙ e, start, end') refl

mask-same :
    (show : Num → Text) (n k : ℕ) (s t : Text)
    → ((n ≡ 11) × (k ≡ 7)) ⊎ ((n ≡ 8) × (k ≡ 6))
    → all is_digit s ≡ true
    → all is_digit t ≡ true
    → length s ≡ n
    → length t ≡ n
    → mask_text s ≡ mask_text t
    → mask_identity_document show (string s) ≡ mask_identity_document show (string t)
mask-same show n k [] [] which ds dt h h' same = refl
mask-same show n k [] (d ∷ t) which ds dt h h' same = absurd (omega (arith, h, h'))
mask-same show n k (c ∷ s) [] which ds dt h h' same = absurd (omega (arith, h, h'))
mask-same show n k (c ∷ s) (d ∷ t) which ds dt h h' same =
    mask-digits show c s ds ∙ same ∙ sym (mask-digits show d t dt)

-- The mask tells nothing of the middle digits: two texts of 11 digits that agree in the first two
-- and the last four, or of 8 digits that agree in the first two and the last two, have the same mask.
pub mask_identity_document-hides :
    (show : Num → Text) (n k : ℕ) (s t : Text)
    → ((n ≡ 11) × (k ≡ 7)) ⊎ ((n ≡ 8) × (k ≡ 6))
    → all is_digit s ≡ true
    → all is_digit t ≡ true
    → length s ≡ n
    → length t ≡ n
    → take 2 s ≡ take 2 t
    → drop k s ≡ drop k t
    → mask_identity_document show (string s) ≡ mask_identity_document show (string t)
mask_identity_document-hides show n k s t which ds dt h h' start end =
    mask-same show n k s t which ds dt h h' (mask_text-same n k s t which h h' start end)
