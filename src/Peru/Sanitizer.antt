-- ===== src/Peru/Sanitizer.antt =====
-- src/peru-validation/peru-sanitizer.util.ts
pub mod Hiding
use facturify.Base.{
  ℕ, zero, suc, ◌+◌, ◌-◌, ◌≡◌, refl, Bool, true, false, not, ◌||◌, Option, none, some, List, [],
  ◌∷◌, ◌++◌, take, drop, length, leb, ◌==◌, filter, if◌then◌else◌, min,
}
use facturify.Js.Text.{Text, codes, trim}
use facturify.Js.Number.{Num}
use facturify.Js.Value.{Value, is_nullish, to_text}

-- `replace(/<[^>]*>/g, '')`. The text since an open `<` is held back until its `>` drops it; with
-- no `>` it is kept.
unfoldable pub strip_tags : Option Text → Text → Text
strip_tags none [] = []
strip_tags (some held) [] = held
strip_tags none (c ∷ s) =
    let outside = strip_tags none s in
    let inside = strip_tags (some (c ∷ [])) s in if c == b'<' then inside else c ∷ outside
strip_tags (some held) (c ∷ s) =
    let outside = strip_tags none s in
    let inside = strip_tags (some (held ++ (c ∷ []))) s in if c == b'>' then outside else inside

-- `[\r\n\0\t]`, and `[\r\n\0]`.
abbrev pub is_line_control : ℕ → Bool
is_line_control c = c == 13 || c == 10 || c == 0

abbrev pub is_control : ℕ → Bool
is_control c = is_line_control c || c == 9

unfoldable pub sanitize : Text → Text
unfolding strip_tags
sanitize s = filter (λ c. not (is_control c)) (strip_tags none s)

unfoldable pub stars : ℕ → Text
stars zero = []
stars (suc n) = b'*' ∷ stars n

-- The mask of a sanitized text.
unfoldable pub mask_text : Text → Text
unfolding stars
mask_text s =
    let n = length s in
    if n == 11
    then take 2 s ++ stars 5 ++ drop 7 s
    else if n == 8
    then take 2 s ++ stars 4 ++ drop 6 s
    else if leb 5 n
    then take 2 s ++ stars (min (n - 2 - 2) 6) ++ drop (n - 2) s
    else stars 4

abbrev mask_raw : Text → Text
mask_raw [] = stars 3
mask_raw (c ∷ s) = mask_text (sanitize (c ∷ s))

unfoldable pub mask_identity_document : (Num → Text) → Value → Text
unfolding is_nullish to_text trim sanitize mask_text
mask_identity_document show doc =
    if is_nullish doc then stars 3 else mask_raw (trim (to_text show doc))

unfoldable pub sanitize_safe_text : (Num → Text) → Value → Text
unfolding is_nullish to_text strip_tags
sanitize_safe_text show input =
    if is_nullish input
    then codes ""
    else take 30 (filter (λ c. not (is_line_control c)) (strip_tags none (to_text show input)))
