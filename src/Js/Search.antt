-- ===== src/Js/Search.antt =====
-- Searching in strings: `includes`, `startsWith`.
use facturify.Base.{Bool, true, false, ◌&&◌, ◌||◌, [], ◌∷◌, ◌==◌}
use facturify.Js.Text.{Text}

unfoldable pub has_prefix : Text → Text → Bool
has_prefix [] s = true
has_prefix (x ∷ xs) [] = false
has_prefix (x ∷ xs) (c ∷ s) = x == c && has_prefix xs s

-- `contains part s`: `s.includes(part)`.
unfoldable pub contains : Text → Text → Bool
unfolding has_prefix
contains part [] = has_prefix part []
contains part (c ∷ s) = has_prefix part (c ∷ s) || contains part s
