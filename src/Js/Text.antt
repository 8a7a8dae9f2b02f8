-- ===== src/Js/Text.antt =====
-- Strings as lists of UTF-16 code units, with the methods that the source calls on them.
pub mod Laws
pub mod Trim
use Prim.Native.Char.{code}
use Prim.Native.String.{String}
use facturify.Base.{
  ℕ, zero, suc, ◌+◌, ◌-◌, Bool, true, false, not, ◌&&◌, ◌||◌, List, [], ◌∷◌, ◌++◌, map, leb, ltb,
  ◌==◌, if◌then◌else◌, all,
}

abbrev pub Text : Type 0
Text = List ℕ

-- The code units of a literal of the basic plane.
abbrev pub codes : String → Text
codes String.[] = []
codes (String.◌∷◌ c s) = code c ∷ codes s

-- `===` on strings.
unfoldable pub text_eq : Text → Text → Bool
text_eq [] [] = true
text_eq (x ∷ xs) (y ∷ ys) = x == y && text_eq xs ys
text_eq _ _ = false

-- `includes` on an array of strings, `has` on a set of them.
unfoldable pub includes : List Text → Text → Bool
unfolding text_eq
includes [] s = false
includes (t ∷ ts) s = text_eq t s || includes ts s

-- White space and line terminators of ECMAScript, which `trim` removes and `\s` matches.
unfoldable pub is_space : ℕ → Bool
is_space c =
    (leb 9 c && leb c 13)
    || c == 32
    || c == 0xA0
    || c == 0x1680
    || (leb 0x2000 c && leb c 0x200A)
    || c == 0x2028
    || c == 0x2029
    || c == 0x202F
    || c == 0x205F
    || c == 0x3000
    || c == 0xFEFF

unfoldable pub trim_start : Text → Text
unfolding is_space
trim_start [] = []
trim_start (c ∷ s) = let rest = trim_start s in if is_space c then rest else c ∷ s

unfoldable pub trim_end_cons : ℕ → Text → Text
unfolding is_space
trim_end_cons c [] = if is_space c then [] else c ∷ []
trim_end_cons c (d ∷ t) = c ∷ d ∷ t

-- A trailing run of white space is dropped from the right end on.
unfoldable pub trim_end : Text → Text
unfolding trim_end_cons
trim_end [] = []
trim_end (c ∷ s) = trim_end_cons c (trim_end s)

unfoldable pub trim : Text → Text
unfolding trim_start trim_end
trim s = trim_end (trim_start s)

unfoldable pub is_digit : ℕ → Bool
is_digit c = leb b'0' c && leb c b'9'

unfoldable pub is_upper : ℕ → Bool
is_upper c = leb b'A' c && leb c b'Z'

unfoldable pub is_lower : ℕ → Bool
is_lower c = leb b'a' c && leb c b'z'

-- `[a-zA-Z0-9]`
unfoldable pub is_alnum : ℕ → Bool
unfolding is_digit is_upper is_lower
is_alnum c = is_lower c || is_upper c || is_digit c

unfoldable pub upper_unit : ℕ → ℕ
unfolding is_lower
upper_unit c = if is_lower c then c - 32 else c

unfoldable pub lower_unit : ℕ → ℕ
unfolding is_upper
lower_unit c = if is_upper c then c + 32 else c

abbrev pub is_ascii : Text → Bool
is_ascii = all (λ c. ltb c 128)

-- `toUpperCase`. Outside ASCII it follows the tables of Unicode, the argument `wide`.
unfoldable pub to_upper : (Text → Text) → Text → Text
unfolding upper_unit
to_upper wide s = if is_ascii s then map upper_unit s else wide s

unfoldable pub to_lower : (Text → Text) → Text → Text
unfolding lower_unit
to_lower wide s = if is_ascii s then map lower_unit s else wide s
