-- ===== src/Destination/Blocks.antt =====
-- The IPv4 ranges of src/webhook-dns-safety/webhook-dns-safety.util.ts as blocks of addresses.
use facturify.Base.{
  ℕ, ◌+◌, ◌-◌, ◌*◌, ◌/◌, ◌^◌, ◌<◌, ◌≡◌, refl, Bool, ◌&&◌, ◌||◌, List, [], ◌∷◌, any, leb, ◌==◌,
  arith,
}
use facturify.Destination.Address.{in_restricted_range}

-- A block: the addresses that agree with the base in so many leading bits.
abbrev pub in_block : ℕ → (ℕ × ℕ) → Bool
in_block address (base, bits) = address / 2 ^ (32 - bits) == base / 2 ^ (32 - bits)

abbrev pub address_of : ℕ → ℕ → ℕ → ℕ → ℕ
address_of a b c d = ((a * 256 + b) * 256 + c) * 256 + d

-- The special-purpose blocks of IPv4.
abbrev pub special_blocks : List (ℕ × ℕ)
special_blocks =
    (address_of 0 0 0 0, 8)
    ∷ (address_of 10 0 0 0, 8)
    ∷ (address_of 100 64 0 0, 10)
    ∷ (address_of 127 0 0 0, 8)
    ∷ (address_of 169 254 0 0, 16)
    ∷ (address_of 172 16 0 0, 12)
    ∷ (address_of 192 0 0 0, 24)
    ∷ (address_of 192 0 2 0, 24)
    ∷ (address_of 192 88 99 0, 24)
    ∷ (address_of 192 168 0 0, 16)
    ∷ (address_of 198 18 0 0, 15)
    ∷ (address_of 198 51 100 0, 24)
    ∷ (address_of 203 0 113 0, 24)
    ∷ (address_of 224 0 0 0, 4)
    ∷ (address_of 240 0 0 0, 4)
    ∷ []

module _ (a b c d : ℕ) (ha : a < 256) (hb : b < 256) (hc : c < 256) (hd : d < 256) where
  block-4 : address_of a b c d / 268435456 ≡ a / 16
  block-4 = omega (arith, ha, hb, hc, hd)

  block-8 : address_of a b c d / 16777216 ≡ a
  block-8 = omega (arith, ha, hb, hc, hd)

  block-10 : address_of a b c d / 4194304 ≡ a * 4 + b / 64
  block-10 = omega (arith, ha, hb, hc, hd)

  block-12 : address_of a b c d / 1048576 ≡ a * 16 + b / 16
  block-12 = omega (arith, ha, hb, hc, hd)

  block-15 : address_of a b c d / 131072 ≡ a * 128 + b / 2
  block-15 = omega (arith, ha, hb, hc, hd)

  block-16 : address_of a b c d / 65536 ≡ a * 256 + b
  block-16 = omega (arith, ha, hb, hc, hd)

  block-24 : address_of a b c d / 256 ≡ (a * 256 + b) * 256 + c
  block-24 = omega (arith, ha, hb, hc, hd)

  test-10 : (a * 4 + b / 64 == 401) ≡ (a == 100 && leb 64 b && leb b 127)
  test-10 = ground (arith, hb)

  test-12 : (a * 16 + b / 16 == 2753) ≡ (a == 172 && leb 16 b && leb b 31)
  test-12 = ground (arith, hb)

  test-15 : (a * 128 + b / 2 == 25353) ≡ (a == 198 && (b == 18 || b == 19))
  test-15 = ground (arith, hb)

  test-16 : (m n : ℕ) → n < 256 → (a * 256 + b == m * 256 + n) ≡ (a == m && b == n)
  test-16 m n h = ground (arith, hb, h)

  test-24 :
      (m n k : ℕ)
      → n < 256
      → k < 256
      → ((a * 256 + b) * 256 + c == (m * 256 + n) * 256 + k) ≡ (a == m && b == n && c == k)
  test-24 m n k h h' = ground (arith, hb, hc, h, h')

  test-4 : (a / 16 == 14) ≡ (leb 224 a && leb a 239)
  test-4 = ground arith

  test-top : (a / 16 == 15) ≡ leb 240 a
  test-top = ground (arith, ha)

  -- The tests on octets are membership in the blocks.
  pub ranges : any (in_block (address_of a b c d)) special_blocks ≡ in_restricted_range a b c
  unfolding in_restricted_range
  ranges =
      rw
        (
          block-4,
          block-8,
          block-10,
          block-12,
          block-15,
          block-16,
          block-24,
          test-10,
          test-12,
          test-15,
          test-16 169 254 (omega arith),
          test-16 192 168 (omega arith),
          test-24 192 0 0 (omega arith) (omega arith),
          test-24 192 0 2 (omega arith) (omega arith),
          test-24 192 88 99 (omega arith) (omega arith),
          test-24 198 51 100 (omega arith) (omega arith),
          test-24 203 0 113 (omega arith) (omega arith),
          test-4,
          test-top,
        )
        refl
