-- ===== src/Tax/Decimal.antt =====
-- What the program uses of `Prisma.Decimal`, a package outside the repository: its operations, and
-- their documented behaviour at the numbers of places that the program computes with. Results are
-- rounded to 20 significant digits.
use facturify.Base.{ℕ, ◌+◌, ◌*◌, ◌/◌, ◌^◌, ◌≤◌, ◌<◌, ◌≡◌, Bool, true, false, Option, ltb}
use facturify.Js.Text.{Text}
use facturify.Js.Number.{Num}

pub record Decimals : Type 1 where
  pub Decimal : Type 0
  -- `new Decimal('n / 10^k')` for a constant of the program.
  pub constant : (n k : ℕ) → Decimal
  -- `new Decimal(x)`, where none stands for an exception.
  pub of_text : Text → Option Decimal
  pub of_number : Num → Option Decimal
  -- `isFinite() && !isNaN()`
  pub is_finite : Decimal → Bool
  pub at_most_zero : Decimal → Bool
  pub decimal_places : Decimal → ℕ
  pub greater_than : Decimal → Decimal → Bool
  pub mul : Decimal → Decimal → Decimal
  pub add : Decimal → Decimal → Decimal
  -- `toDecimalPlaces(2, ROUND_HALF_UP)`
  pub to_money : Decimal → Decimal

-- The limit from which a result may be rounded.
abbrev pub precision : ℕ
precision = 10 ^ 20

-- A result is exact below the limit, and stays above it else.
abbrev pub Rounded : ℕ → ℕ → Type 0
Rounded exact r = (exact < precision → r ≡ exact) × (precision ≤ exact → precision ≤ r)

module _ (D : Decimals) where
  open D use {
    Decimal, constant, is_finite, at_most_zero, decimal_places, greater_than, mul, add, to_money,
  }

  -- The documented behaviour. `At d k n` says that d is n / 10^k.
  pub record DecimalLaws : Type 1 where
    pub At : Decimal → ℕ → ℕ → Type 0
    pub constant_at : (n : ℕ) → At (constant n 2) 2 n
    pub constant_at_4 : (n : ℕ) → At (constant n 4) 4 n
    pub places_2 :
        (d : Decimal)
        → is_finite d ≡ true
        → at_most_zero d ≡ false
        → decimal_places d ≤ 2
        → (n : ℕ) × (0 < n) × At d 2 n
    pub places_4 :
        (d : Decimal)
        → is_finite d ≡ true
        → at_most_zero d ≡ false
        → decimal_places d ≤ 4
        → (n : ℕ) × (0 < n) × At d 4 n
    pub greater_than_2 :
        (d e : Decimal) (m n : ℕ) → At d 2 m → At e 2 n → greater_than d e ≡ ltb n m
    pub greater_than_4 :
        (d e : Decimal) (m n : ℕ) → At d 4 m → At e 4 n → greater_than d e ≡ ltb n m
    pub mul_4_2 :
        (d e : Decimal) (m n : ℕ)
        → At d 4 m
        → At e 2 n
        → (r : ℕ) × At (mul d e) 6 r × Rounded (m * n) r
    pub mul_2_2 :
        (d e : Decimal) (m n : ℕ)
        → At d 2 m
        → At e 2 n
        → (r : ℕ) × At (mul d e) 4 r × Rounded (m * n) r
    pub add_2 :
        (d e : Decimal) (m n : ℕ)
        → At d 2 m
        → At e 2 n
        → (r : ℕ) × At (add d e) 2 r × Rounded (m + n) r
    pub to_money_6 : (d : Decimal) (n : ℕ) → At d 6 n → At (to_money d) 2 ((n + 5000) / 10000)
    pub to_money_4 : (d : Decimal) (n : ℕ) → At d 4 n → At (to_money d) 2 ((n + 50) / 100)
