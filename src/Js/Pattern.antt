-- ===== src/Js/Pattern.antt =====
-- Regular expressions as matchers of the text from a position on: what a matcher is given is the rest
-- of the expression.
use facturify.Base.{ℕ, Bool, true, false, ◌&&◌, ◌||◌, [], ◌∷◌, ◌==◌}
use facturify.Js.Text.{Text, lower_unit}

abbrev pub Matcher : Type 0
Matcher = Text → Bool

-- The end of an expression.
abbrev pub done : Matcher
done s = true

unfoldable pub unit_then : (ℕ → Bool) → Matcher → Matcher
unit_then f k [] = false
unit_then f k (c ∷ s) = f c && k s

-- `x?`
unfoldable pub maybe_then : (ℕ → Bool) → Matcher → Matcher
maybe_then f k [] = k []
maybe_then f k (c ∷ s) = (f c && k s) || k (c ∷ s)

-- `x*`
unfoldable pub star_then : (ℕ → Bool) → Matcher → Matcher
star_then f k [] = k []
star_then f k (c ∷ s) = (f c && star_then f k s) || k (c ∷ s)

-- A literal in small letters, under the flag `i`.
unfoldable pub word_then : Text → Matcher → Matcher
unfolding lower_unit
word_then [] k s = k s
word_then (x ∷ xs) k [] = false
word_then (x ∷ xs) k (c ∷ s) = x == lower_unit c && word_then xs k s

-- `test`: whether there is a match at some position.
unfoldable pub found_in : Matcher → Text → Bool
found_in k [] = k []
found_in k (c ∷ s) = k (c ∷ s) || found_in k s
