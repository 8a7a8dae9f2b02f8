-- ===== src/Password/Text.antt =====
-- The normalized text of a password (src/password-policy/password-policy.util.ts). The letters of
-- Unicode are an argument: `toLowerCase` outside ASCII, and `normalize('NFD')`.
use facturify.Base.{
  ℕ, suc, Bool, true, false, not, ◌&&◌, ◌||◌, [], ◌∷◌, map, filter, any, length, leb, ltb, ◌==◌,
  if◌then◌else◌,
}
use facturify.Js.Text.{Text, trim, to_lower}

pub record Letters : Type 0 where
  pub lower : Text → Text
  pub nfd : Text → Text

-- `[\u0300-\u036f]`
abbrev is_mark : ℕ → Bool
is_mark c = leb 0x300 c && leb c 0x36F

unfoldable pub normalize_text : Letters → Text → Text
unfolding trim to_lower
normalize_text letters [] = []
normalize_text letters (c ∷ s) =
    filter (λ c. not (is_mark c)) (letters.nfd (to_lower letters.lower (trim (c ∷ s))))

unfoldable pub leet_unit : ℕ → ℕ
leet_unit c =
    if c == b'@' || c == b'4'
    then b'a'
    else if c == b'0'
    then b'o'
    else if c == b'1' || c == b'!' || c == b'|'
    then b'i'
    else if c == b'$' || c == b'5'
    then b's'
    else if c == b'3'
    then b'e'
    else if c == b'7'
    then b't'
    else c

unfoldable pub normalize_with_leet : Letters → Text → Text
unfolding normalize_text leet_unit
normalize_with_leet letters s = map leet_unit (normalize_text letters s)

-- `[\u0000-\u001F\u007F-\u009F]`
unfoldable pub is_control_unit : ℕ → Bool
is_control_unit c = leb c 0x1F || (leb 0x7F c && leb c 0x9F)

unfoldable pub contains_control_characters : Text → Bool
unfolding is_control_unit
contains_control_characters s = any is_control_unit s

-- The loop over the units behind the first, with the unit before and the length of its run.
unfoldable pub repetition_loop : ℕ → ℕ → ℕ → Text → Bool
repetition_loop max before count [] = false
repetition_loop max before count (c ∷ s) =
    let longer = repetition_loop max c (suc count) s in
    let fresh = repetition_loop max c 1 s in
    if c == before then (if ltb max (suc count) then true else longer) else fresh

unfoldable pub repeats : ℕ → Text → Bool
unfolding repetition_loop
repeats max [] = false
repeats max (c ∷ s) = repetition_loop max c 1 s

unfoldable pub has_excessive_repetitions : Letters → Text → ℕ → Bool
unfolding repeats to_lower
has_excessive_repetitions letters s max =
    if leb (length s) max then false else repeats max (to_lower letters.lower s)
