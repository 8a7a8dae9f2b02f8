-- ===== src/Js/Value.antt =====
-- Values of type `unknown`.
use facturify.Base.{Bool, true, false}
use facturify.Js.Text.{Text, codes}
use facturify.Js.Number.{Num}

-- `other s`: an object, a function, a symbol or a bigint, of which `String` gives `s`.
pub data Value : Type 0 where
  undefined null : Value
  boolean : Bool → Value
  number : Num → Value
  string : Text → Value
  other : Text → Value

-- `value === null || value === undefined`
unfoldable pub is_nullish : Value → Bool
is_nullish undefined = true
is_nullish null = true
is_nullish _ = false

-- `String(value)`. The digits of a number are those that the argument `show` prints.
unfoldable pub to_text : (Num → Text) → Value → Text
to_text show undefined = codes "undefined"
to_text show null = codes "null"
to_text show (boolean true) = codes "true"
to_text show (boolean false) = codes "false"
to_text show (number x) = show x
to_text show (string s) = s
to_text show (other s) = s

-- `String(value ?? '')`
unfoldable pub to_text_or_empty : (Num → Text) → Value → Text
unfolding to_text
to_text_or_empty show undefined = codes ""
to_text_or_empty show null = codes ""
to_text_or_empty show v = to_text show v
