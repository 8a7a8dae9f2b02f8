-- ===== src/Destination/Notation.antt =====
-- IPv4 addresses as they are written, in src/webhook-dns-safety/webhook-dns-safety.util.ts.
use facturify.Base.{
  ℕ, ◌+◌, ◌*◌, ◌/◌, ◌%◌, ◌<◌, ◌≡◌, refl, sym, ap, ◌∙◌, true, false, some, List, [], ◌∷◌, ◌++◌, any,
  ltb, ◌==◌, if◌then◌else◌, arith, Bool-cases, ltb→lt, all, inl, inr,
}
use facturify.Js.Text.{Text, trim_start, is_digit, is_space}
use facturify.Destination.Address.{
  split, plain, natural, parse_digits, parse_int, in_restricted_range, judge_parts,
  is_private_or_restricted_ipv4,
}
use facturify.Destination.Blocks.{in_block, address_of, special_blocks, ranges}

-- An octet in decimal.
abbrev pub decimal : ℕ → Text
decimal n =
    if ltb n 10
    then (b'0' + n) ∷ []
    else if ltb n 100
    then (b'0' + n / 10) ∷ (b'0' + n % 10) ∷ []
    else (b'0' + n / 100) ∷ (b'0' + n / 10 % 10) ∷ (b'0' + n % 10) ∷ []

abbrev pub dotted : ℕ → ℕ → ℕ → ℕ → Text
dotted a b c d = decimal a ++ (b'.' ∷ (decimal b ++ (b'.' ∷ (decimal c ++ (b'.' ∷ decimal d)))))

-- The digits of an octet, by their number.
decimal-cases :
    (P : Text → Type 0) (n : ℕ)
    → n < 256
    → ((x : ℕ) → x < 10 → n ≡ x → P ((b'0' + x) ∷ []))
    → ((x y : ℕ) → x < 10 → y < 10 → n ≡ x * 10 + y → P ((b'0' + x) ∷ (b'0' + y) ∷ []))
    → ((x y z : ℕ)
        → x < 10
        → y < 10
        → z < 10
        → n ≡ (x * 10 + y) * 10 + z
        → P ((b'0' + x) ∷ (b'0' + y) ∷ (b'0' + z) ∷ []))
    → P (decimal n)
decimal-cases P n h one two three = elim (Bool-cases (ltb n 10)) [
  | inl e ↦ rw e (one n (ltb→lt n 10 e) refl)
  | inr e ↦ elim (Bool-cases (ltb n 100)) [
    | inl f ↦
        let small : n < 100 = ltb→lt n 100 f in
        rw (e, f) (two (n / 10) (n % 10) (omega (arith, small)) (omega arith) (omega arith))
    | inr f ↦
        rw (e, f)
          (three (n / 100) (n / 10 % 10) (n % 10) (omega (arith, h)) (omega arith) (omega arith)
            (omega arith))
  ]
]

decimal-digits : (n : ℕ) → n < 256 → all is_digit (decimal n) ≡ true
unfolding is_digit
decimal-digits n h =
    decimal-cases (λ s. all is_digit s ≡ true) n h (λ x hx _. ground (arith, hx))
      (λ x y hx hy _. ground (arith, hx, hy)) (λ x y z hx hy hz _. ground (arith, hx, hy, hz))

first-digit :
    (x : ℕ) (s : Text) → x < 10 → parse_int ((b'0' + x) ∷ s) ≡ plain (parse_digits (some x) s)
unfolding parse_int parse_digits trim_start is_space is_digit
first-digit x s h = ground (arith, h)

next-digit :
    (n x : ℕ) (s : Text)
    → x < 10
    → parse_digits (some n) ((b'0' + x) ∷ s) ≡ parse_digits (some (n * 10 + x)) s
unfolding parse_digits is_digit
next-digit n x s h = ground (arith, h)

parse_int-decimal : (n : ℕ) → n < 256 → parse_int (decimal n) ≡ natural n
unfolding parse_digits
parse_int-decimal n h =
    decimal-cases (λ s. parse_int s ≡ natural n) n h
      (λ x hx e. first-digit x [] hx ∙ ap natural (sym e))
      (λ x y hx hy e. first-digit x _ hx ∙ ap plain (next-digit x y [] hy) ∙ ap natural (sym e))
      (λ x y z hx hy hz e.
        first-digit x _ hx
        ∙ ap plain (next-digit x y ((b'0' + z) ∷ []) hy ∙ next-digit (x * 10 + y) z [] hz)
        ∙ ap natural (sym e))

split-inhabited :
    (sep : ℕ) (s : Text) → (part : Text) × (parts : List Text) × (split sep s ≡ part ∷ parts)
unfolding split
split-inhabited sep [] = ([], [], refl)
split-inhabited sep (c ∷ s) =
    let (part, parts, e) = split-inhabited sep s in
    rw e (elim (Bool-cases (c == sep)) [
      | inl f ↦ ([], part ∷ parts, rw f refl)
      | inr f ↦ (c ∷ part, parts, rw f refl)
    ])

split-here : (s : Text) → split b'.' (b'.' ∷ s) ≡ [] ∷ split b'.' s
unfolding split
split-here s = let (part, parts, e) = split-inhabited b'.' s in rw e refl

split-later :
    (c : ℕ) (s part : Text) (parts : List Text)
    → is_digit c ≡ true
    → split b'.' s ≡ part ∷ parts
    → split b'.' (c ∷ s) ≡ (c ∷ part) ∷ parts
unfolding split is_digit
split-later c s part parts h e =
    let other : (c == b'.') ≡ false = ground (arith, h) in rw (e, other) refl

split-digits :
    (ds s : Text) → all is_digit ds ≡ true → split b'.' (ds ++ (b'.' ∷ s)) ≡ ds ∷ split b'.' s
split-digits [] s h = split-here s
split-digits (c ∷ ds) s h =
    let head : is_digit c ≡ true = ground (arith, h) in
    let tail : all is_digit ds ≡ true = ground (arith, h) in
    split-later c (ds ++ (b'.' ∷ s)) ds (split b'.' s) head (split-digits ds s tail)

split-last : (ds : Text) → all is_digit ds ≡ true → split b'.' ds ≡ ds ∷ []
unfolding split
split-last [] h = refl
split-last (c ∷ ds) h =
    let head : is_digit c ≡ true = ground (arith, h) in
    let tail : all is_digit ds ≡ true = ground (arith, h) in
    split-later c ds ds [] head (split-last ds tail)

module _ (a b c d : ℕ) (ha : a < 256) (hb : b < 256) (hc : c < 256) (hd : d < 256) where
  split-dotted : split b'.' (dotted a b c d) ≡ decimal a ∷ decimal b ∷ decimal c ∷ decimal d ∷ []
  split-dotted =
      split-digits (decimal a) _ (decimal-digits a ha)
      ∙ ap (λ p. decimal a ∷ p)
          (split-digits (decimal b) _ (decimal-digits b hb)
            ∙ ap (λ p. decimal b ∷ p)
                (split-digits (decimal c) _ (decimal-digits c hc)
                  ∙ ap (λ p. decimal c ∷ p) (split-last (decimal d) (decimal-digits d hd))))

  in_range :
      judge_parts (natural a ∷ natural b ∷ natural c ∷ natural d ∷ []) ≡ in_restricted_range a b c
  unfolding judge_parts
  in_range = ground (arith, ha, hb, hc, hd)

  -- An IPv4 address in the usual notation, which `net.isIP` takes for one, is private or restricted
  -- exactly if it lies in one of the fifteen special-purpose blocks.
  pub is_private_or_restricted_ipv4-blocks :
      (is_ip : Text → ℕ)
      → is_ip (dotted a b c d) ≡ 4
      → is_private_or_restricted_ipv4 is_ip (dotted a b c d)
        ≡ any (in_block (address_of a b c d)) special_blocks
  unfolding is_private_or_restricted_ipv4
  is_private_or_restricted_ipv4-blocks is_ip h =
      rw
        (
          h,
          split-dotted,
          parse_int-decimal a ha,
          parse_int-decimal b hb,
          parse_int-decimal c hc,
          parse_int-decimal d hd,
        )
        (in_range ∙ sym (ranges a b c d ha hb hc hd))
