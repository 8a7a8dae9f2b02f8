-- ===== src/Js/Utf8.antt =====
-- The bytes of a string in UTF-8, as `Buffer.from` makes them.
use facturify.Base.{
  ℕ, ◌+◌, ◌-◌, ◌*◌, ◌/◌, ◌%◌, Bool, ◌&&◌, ◌||◌, [], ◌∷◌, ◌++◌, ltb, leb, if◌then◌else◌,
}
use facturify.Js.Text.{Text}

-- The halves of a pair of surrogates.
abbrev pub is_high : ℕ → Bool
is_high c = leb 0xD800 c && ltb c 0xDC00

abbrev pub is_low : ℕ → Bool
is_low c = leb 0xDC00 c && ltb c 0xE000

abbrev trail : ℕ → ℕ
trail n = 128 + n % 64

-- The bytes of one unit that is no part of a pair of surrogates; a lone surrogate is replaced.
abbrev unit_bytes : ℕ → Text
unit_bytes c =
    if ltb c 128
    then c ∷ []
    else if ltb c 0x800
    then (192 + c / 64) ∷ trail c ∷ []
    else if is_high c || is_low c
    then 0xEF ∷ 0xBF ∷ 0xBD ∷ []
    else (224 + c / 4096) ∷ trail (c / 64) ∷ trail c ∷ []

abbrev pair_bytes : ℕ → ℕ → Text
pair_bytes c d =
    let n = 0x10000 + (c - 0xD800) * 1024 + (d - 0xDC00) in
    (240 + n / 262144) ∷ trail (n / 4096) ∷ trail (n / 64) ∷ trail n ∷ []

-- `Buffer.from(s, 'utf8')`
unfoldable pub utf8 : Text → Text
utf8 [] = []
utf8 (c ∷ []) = unit_bytes c
utf8 (c ∷ d ∷ s) =
    let single = unit_bytes c ++ utf8 (d ∷ s) in
    let pair = pair_bytes c d ++ utf8 s in if is_high c && is_low d then pair else single
