-- ===== src/Sunat/Tokens.antt =====
-- The regular expressions of `extractCanonicalCode` (src/sunat-errors/sunat-error-classifier.service.ts).
use facturify.Base.{
  List, ℕ, Bool, true, not, ◌&&◌, ◌||◌, Option, none, some, [], ◌∷◌, filter, length, leb, ltb, ◌==◌,
  if◌then◌else◌,
}
use facturify.Js.Text.{Text, codes, is_alnum, is_digit, is_space}
use facturify.Js.Pattern.{Matcher, done, unit_then, maybe_then, star_then, word_then, found_in}

-- `x\s+y`, under the flag `i`
abbrev two_words : Text → Text → Matcher
two_words x y = word_then x (unit_then is_space (star_then is_space (word_then y done)))

-- `timed?\s*out`
abbrev time_out : Matcher
time_out =
    word_then (codes "time")
      (maybe_then (λ c. c == b'd' || c == b'D') (star_then is_space (word_then (codes "out") done)))

abbrev holds : Text → Text → Bool
holds word s = found_in (word_then word done) s

-- The tests for the tokens of the network, in their order, each with what it returns.
unfoldable pub network_tests : Text → List (Bool × Text)
unfolding found_in word_then star_then maybe_then unit_then is_space
network_tests s =
    (holds (codes "esockettimedout") s, codes "ESOCKETTIMEDOUT")
    ∷ (holds (codes "etimedout") s, codes "ETIMEDOUT")
    ∷ (found_in time_out s || holds (codes "timeout") s, codes "TIMEOUT")
    ∷ (
      holds (codes "econnreset") s || found_in (two_words (codes "connection") (codes "reset")) s,
      codes "ECONNRESET",
    )
    ∷ (
      holds (codes "econnrefused") s
          || found_in (two_words (codes "connection") (codes "refused")) s,
      codes "ECONNREFUSED",
    )
    ∷ (holds (codes "enotfound") s, codes "ENOTFOUND")
    ∷ (holds (codes "eai_again") s, codes "EAI_AGAIN")
    ∷ (
      holds (codes "aborterror") s || found_in (two_words (codes "request") (codes "aborted")) s,
      codes "ABORT_ERROR",
    )
    ∷ []

-- The value of the first test that is true.
unfoldable pub first_true : List (Bool × Text) → Option Text
first_true [] = none
first_true (p ∷ ps) = let rest = first_true ps in if p.0 then some p.1 else rest

unfoldable pub network_token : Text → Option Text
unfolding network_tests first_true
network_token s = first_true (network_tests s)

-- `\w`
abbrev pub is_word : ℕ → Bool
unfolding is_alnum
is_word c = is_alnum c || c == b'_'

-- `\b` behind a word unit.
abbrev ends_word : Text → Bool
unfolding is_word
ends_word [] = true
ends_word (c ∷ s) = not (is_word c)

-- `(500|502|503|504)\b`
unfoldable pub status_here : Text → Option Text
unfolding ends_word
status_here (a ∷ b ∷ c ∷ s) =
    if a == b'5' && b == b'0' && (c == b'0' || c == b'2' || c == b'3' || c == b'4') && ends_word s
    then some (a ∷ b ∷ c ∷ [])
    else none
status_here _ = none

-- `[_\s]*` before the status, which has none of these units.
unfoldable pub status_behind : Text → Option Text
unfolding status_here is_space
status_behind [] = none
status_behind (c ∷ s) =
    let rest = status_behind s in if c == b'_' || is_space c then rest else status_here (c ∷ s)

-- `http[_\s]*` and the status, or the status alone.
unfoldable pub http_here : Text → Option Text
unfolding status_behind status_here word_then
http_here (h ∷ t ∷ t' ∷ p ∷ rest) =
    if word_then (codes "http") done (h ∷ t ∷ t' ∷ p ∷ [])
    then status_behind rest
    else status_here (h ∷ t ∷ t' ∷ p ∷ rest)
http_here s = status_here s

-- The first match, where a word begins or, for a text that no word unit precedes, at its start.
unfoldable pub http_status : Bool → Text → Option Text
unfolding http_here is_word
http_status behind_word [] = none
http_status behind_word (c ∷ s) =
    let rest = http_status (is_word c) s in
    if is_word c && not behind_word
    then (elim (http_here (c ∷ s)) [ some status ↦ some status | none ↦ rest ])
    else rest

-- `(0\d{3}|[1-4]\d{3})(?:[^\d]|$)`
abbrev ends_digits : Text → Bool
unfolding is_digit
ends_digits [] = true
ends_digits (c ∷ s) = not (is_digit c)

unfoldable pub four_here : Text → Option Text
unfolding is_digit ends_digits
four_here (a ∷ b ∷ c ∷ d ∷ s) =
    if leb b'0' a && leb a b'4' && is_digit b && is_digit c && is_digit d && ends_digits s
    then some (a ∷ b ∷ c ∷ d ∷ [])
    else none
four_here _ = none

-- The first match at the start or behind a unit that is no digit.
unfoldable pub four_digits : Bool → Text → Option Text
unfolding four_here is_digit
four_digits behind_digit [] = none
four_digits behind_digit (c ∷ s) =
    let rest = four_digits (is_digit c) s in
    if behind_digit
    then rest
    else (elim (four_here (c ∷ s)) [ some code ↦ some code | none ↦ rest ])

-- `[a-zA-Z0-9_-]`
unfoldable pub is_code_unit : ℕ → Bool
unfolding is_alnum
is_code_unit c = is_alnum c || c == b'_' || c == b'-'

unfoldable pub cleaned : Text → Option Text
unfolding is_code_unit
cleaned s =
    let token = filter is_code_unit s in
    if ltb 0 (length token) && leb (length token) 20 then some token else none
