-- ===== src/Idempotency/Path.antt =====
-- `normalizeMethod` and `normalizePath` (src/idempotency/idempotency.util.ts). The query with its
-- parameters sorted, by `URLSearchParams` and `encodeURIComponent`, is an argument: the empty text
-- where there are no parameters.
pub mod Laws
use facturify.Base.{
  ℕ, Bool, true, false, not, ◌&&◌, Option, none, some, List, [], ◌∷◌, ◌++◌, ◌==◌, if◌then◌else◌,
}
use facturify.Js.Text.{Text, codes, trim, to_upper}
use facturify.Js.Value.{Value, string}

abbrev is_empty : Text → Bool
is_empty [] = true
is_empty (_ ∷ _) = false

-- `pathname.replace(/\/+/g, '/')`
unfoldable pub collapse : Text → Text
collapse [] = []
collapse (c ∷ []) = c ∷ []
collapse (c ∷ d ∷ s) =
    let rest = collapse (d ∷ s) in if c == b'/' && d == b'/' then rest else c ∷ rest

unfoldable pub add_leading : Text → Text
add_leading [] = b'/' ∷ []
add_leading (c ∷ s) = if c == b'/' then c ∷ s else b'/' ∷ c ∷ s

-- The last of at least two units is dropped if it is a slash.
unfoldable pub drop_trailing : Text → Text
drop_trailing [] = []
drop_trailing (c ∷ []) = c ∷ []
drop_trailing (c ∷ d ∷ []) = if d == b'/' then c ∷ [] else c ∷ d ∷ []
drop_trailing (c ∷ d ∷ e ∷ s) = c ∷ drop_trailing (d ∷ e ∷ s)

unfoldable pub normalize_pathname : Text → Text
unfolding collapse add_leading drop_trailing
normalize_pathname s = drop_trailing (add_leading (collapse s))

-- The first two parts of `split('?')`.
unfoldable pub before_mark : Text → Text
before_mark [] = []
before_mark (c ∷ s) = let rest = before_mark s in if c == b'?' then [] else c ∷ rest

unfoldable pub after_mark : Text → Option Text
unfolding before_mark
after_mark [] = none
after_mark (c ∷ s) = let rest = after_mark s in if c == b'?' then some (before_mark s) else rest

abbrev with_query : (Text → Text) → Text → Option Text → Text
with_query sorted_query path none = path
with_query sorted_query path (some q) =
    if is_empty (sorted_query q) then path else path ++ (b'?' ∷ sorted_query q)

-- A path that is not empty.
abbrev pub normalize_text : (Text → Text) → Text → Text
unfolding normalize_pathname before_mark after_mark
normalize_text sorted_query trimmed =
    with_query sorted_query (normalize_pathname (before_mark trimmed)) (after_mark trimmed)

unfoldable pub normalize_path : (Text → Text) → Value → Text
unfolding trim normalize_text
normalize_path sorted_query (string s) =
    if is_empty (trim s) then codes "/" else normalize_text sorted_query (trim s)
normalize_path sorted_query _ = codes "/"

unfoldable pub normalize_method : (Text → Text) → Value → Text
unfolding trim to_upper
normalize_method wide (string s) =
    if is_empty (trim s) then codes "POST" else to_upper wide (trim s)
normalize_method wide _ = codes "POST"
