-- ===== src/Destination/Address.antt =====
-- Which IP addresses are public: src/webhook-dns-safety/webhook-dns-safety.util.ts. `net.isIP`, of
-- Node.js, is the argument `is_ip`: 4, 6, or 0 where a text is no address.
use facturify.Base.{
  ℕ, zero, suc, ◌+◌, ◌-◌, ◌*◌, Bool, true, false, not, ◌&&◌, ◌||◌, Option, none, some, List, [],
  ◌∷◌, map, any, leb, ◌==◌, if◌then◌else◌,
}
use facturify.Js.Text.{Text, codes, text_eq, trim, trim_start, to_lower, is_digit}

-- `split` by one code unit. A text has one part more than separators.
unfoldable pub split : ℕ → Text → List Text
split sep [] = [] ∷ []
split sep (c ∷ s) = elim (split sep s) [
  | [] ↦ []
  | part ∷ parts ↦ if c == sep then [] ∷ part ∷ parts else (c ∷ part) ∷ parts
]

-- `parseInt(s, 10)`.
pub data Parsed : Type 0 where
  not_a_number negative : Parsed
  natural : ℕ → Parsed

-- The digits at the start of a text, after some that are read.
unfoldable pub parse_digits : Option ℕ → Text → Option ℕ
unfolding is_digit
parse_digits acc [] = acc
parse_digits none (c ∷ s) =
    let rest = parse_digits (some (c - b'0')) s in if is_digit c then rest else none
parse_digits (some n) (c ∷ s) =
    let rest = parse_digits (some (n * 10 + (c - b'0'))) s in if is_digit c then rest else some n

abbrev pub plain : Option ℕ → Parsed
plain none = not_a_number
plain (some n) = natural n

abbrev negated : Option ℕ → Parsed
negated none = not_a_number
negated (some zero) = natural zero
negated (some (suc n)) = negative

abbrev signed : Text → Parsed
unfolding parse_digits
signed [] = not_a_number
signed (c ∷ s) =
    if c == b'-'
    then negated (parse_digits none s)
    else if c == b'+'
    then plain (parse_digits none s)
    else plain (parse_digits none (c ∷ s))

unfoldable pub parse_int : Text → Parsed
unfolding trim_start signed
parse_int s = signed (trim_start s)

-- The ranges, from the first three octets, in the order of the early returns.
unfoldable pub in_restricted_range : ℕ → ℕ → ℕ → Bool
in_restricted_range a b c =
    any (λ restricted. restricted)
      ((a == 0)
        ∷ (a == 10)
        ∷ (a == 100 && leb 64 b && leb b 127)
        ∷ (a == 127)
        ∷ (a == 169 && b == 254)
        ∷ (a == 172 && leb 16 b && leb b 31)
        ∷ (a == 192 && b == 0 && c == 0)
        ∷ (a == 192 && b == 0 && c == 2)
        ∷ (a == 192 && b == 88 && c == 99)
        ∷ (a == 192 && b == 168)
        ∷ (a == 198 && (b == 18 || b == 19))
        ∷ (a == 198 && b == 51 && c == 100)
        ∷ (a == 203 && b == 0 && c == 113)
        ∷ (leb 224 a && leb a 239)
        ∷ leb 240 a
        ∷ [])

abbrev in_octet_range : Parsed → Bool
in_octet_range (natural n) = leb n 255
in_octet_range _ = false

abbrev octet : Parsed → ℕ
octet (natural n) = n
octet _ = 0

-- Four parts in the range of an octet, or a restricted address.
unfoldable pub judge_parts : List Parsed → Bool
unfolding in_restricted_range
judge_parts (a ∷ b ∷ c ∷ d ∷ []) =
    if in_octet_range a && in_octet_range b && in_octet_range c && in_octet_range d
    then in_restricted_range (octet a) (octet b) (octet c)
    else true
judge_parts _ = true

unfoldable pub is_private_or_restricted_ipv4 : (Text → ℕ) → Text → Bool
unfolding split parse_int judge_parts
is_private_or_restricted_ipv4 is_ip ip =
    if not (is_ip ip == 4) then true else judge_parts (map parse_int (split b'.' ip))

unfoldable pub starts_with : Text → Text → Bool
starts_with [] s = true
starts_with (x ∷ xs) [] = false
starts_with (x ∷ xs) (c ∷ s) = x == c && starts_with xs s

-- `replace(/^\[|\]$/g, '')`
abbrev drop_open : Text → Text
drop_open [] = []
drop_open (c ∷ s) = if c == b'[' then s else c ∷ s

unfoldable pub drop_close : Text → Text
drop_close [] = []
drop_close (c ∷ []) = if c == b']' then [] else c ∷ []
drop_close (c ∷ d ∷ s) = c ∷ drop_close (d ∷ s)

unfoldable pub strip_brackets : Text → Text
unfolding drop_close
strip_brackets s = drop_close (drop_open s)

-- `^0+(:0+)*$`, where `seen` says that the group at hand has a zero.
unfoldable pub zero_groups : Bool → Text → Bool
zero_groups seen [] = seen
zero_groups seen (c ∷ s) =
    let same = zero_groups true s in
    let next = zero_groups false s in
    if c == b'0' then same else if c == b':' && seen then next else false

-- `^0+(:0+)*:1$`
unfoldable pub zero_groups_one : Bool → Text → Bool
unfolding text_eq
zero_groups_one seen [] = false
zero_groups_one seen (c ∷ s) =
    let same = zero_groups_one true s in
    let next = zero_groups_one false s in
    if c == b'0' then same else if c == b':' && seen then text_eq s (codes "1") || next else false

-- The prefixes of the mapped, unique local, link-local, multicast and documentation addresses.
abbrev pub restricted_prefixes : List Text
restricted_prefixes =
    codes "::ffff:"
    ∷ codes "0:0:0:0:0:ffff:"
    ∷ codes "fc"
    ∷ codes "fd"
    ∷ codes "fe8"
    ∷ codes "fe9"
    ∷ codes "fea"
    ∷ codes "feb"
    ∷ codes "ff"
    ∷ codes "2001:db8:"
    ∷ codes "2001:0db8:"
    ∷ []

-- Every test returns true, so their order is immaterial; so is what a mapped address ends in.
unfoldable pub is_private_or_restricted_ipv6 : (Text → ℕ) → (Text → Text) → Text → Bool
unfolding strip_brackets to_lower trim starts_with text_eq zero_groups zero_groups_one
is_private_or_restricted_ipv6 is_ip wide ip =
    if not (is_ip ip == 6)
    then true
    else let clean_ip = trim (to_lower wide (strip_brackets ip)) in
      any (λ p. starts_with p clean_ip) restricted_prefixes
      || text_eq clean_ip (codes "::")
      || text_eq clean_ip (codes "0:0:0:0:0:0:0:0")
      || zero_groups false clean_ip
      || text_eq clean_ip (codes "::1")
      || text_eq clean_ip (codes "0:0:0:0:0:0:0:1")
      || zero_groups_one false clean_ip

unfoldable pub is_public_routable_ip : (Text → ℕ) → (Text → Text) → Text → Bool
unfolding is_private_or_restricted_ipv4 is_private_or_restricted_ipv6
is_public_routable_ip is_ip wide ip =
    let version = is_ip ip in
    if version == 4
    then not (is_private_or_restricted_ipv4 is_ip ip)
    else if version == 6
    then not (is_private_or_restricted_ipv6 is_ip wide ip)
    else false

unfoldable pub normalize_ip : (Text → Text) → Text → Text
unfolding strip_brackets trim to_lower
normalize_ip wide ip = to_lower wide (trim (strip_brackets ip))
