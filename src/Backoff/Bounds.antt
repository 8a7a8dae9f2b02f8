-- ===== src/Backoff/Bounds.antt =====
-- Jitter at most doubles a delay, and the delays grow with the attempt.
use native.Mathlib.Nat.{
  le-div_iff_mul-le, div-lt_iff_lt-mul, mul-le-mul_left, mul-le-mul_right, pow-le-pow_right,
}
use facturify.Base.{
  ℕ, suc, ◌+◌, ◌-◌, ◌*◌, ◌/◌, ◌^◌, ◌≤◌, ◌<◌, ◌≡◌, inl, inr, min, max, arith, Bool-cases,
}
use facturify.Js.Number.{Num, frac, of_ℕ, lt_num}
use facturify.Backoff.{
  jittered, min_ticket_delay_ms, max_ticket_delay_ms, clamp_ticket_delay,
  calculate_ticket_backoff_delay, max_retry_delay_ms, initial_retry_delay_ms,
  calculate_exponential_backoff,
}

div_mono : (k : ℕ) {x y : ℕ} → 0 < k → x ≤ y → x / k ≤ y / k
div_mono k {x} {y} pos h = (le-div_iff_mul-le pos).1 (omega (arith, h, div-mul x))
  where
    div-mul : (x : ℕ) → (x / k) * k ≤ x
    div-mul x = (le-div_iff_mul-le pos).0 (omega arith)

-- `Math.round(delay * (1 + m / (e + 1)))`
rounded : ℕ → ℕ → ℕ → ℕ
rounded m e delay = (2 * (delay * (suc e + m)) + suc e) / (2 * suc e)

rounded-ge : (m e delay : ℕ) → delay ≤ rounded m e delay
unfolding rounded
rounded-ge m e delay = (le-div_iff_mul-le (omega arith)).1 (grind arith)

rounded-le : (m e delay : ℕ) → m ≤ suc e → rounded m e delay ≤ 2 * delay
unfolding rounded
rounded-le m e delay h =
    let bound = mul-le-mul_left delay h in
    let strict =
      (div-lt_iff_lt-mul {k = 2 * suc e} {x = 2 * (delay * (suc e + m)) + suc e} {y = 2 * delay + 1}
          (omega arith)).1
        (omega (arith, bound)) in
    omega (arith, strict)

rounded_mono : (m e : ℕ) {x y : ℕ} → x ≤ y → rounded m e x ≤ rounded m e y
unfolding rounded
rounded_mono m e h =
    div_mono (2 * suc e) (omega arith) (omega (arith, mul-le-mul_right (suc e + m) h))

-- A jitter acts as a factor between 0 and 1.
HasFactor : Num → Type 0
HasFactor j = (m : ℕ) × (e : ℕ) × (m ≤ suc e) × ((delay : ℕ) → jittered delay j ≡ rounded m e delay)

no_jitter : (delay : ℕ) → delay ≡ rounded 0 0 delay
unfolding rounded
no_jitter delay = omega arith

jittered-HasFactor : (j : Num) → HasFactor j
unfolding HasFactor jittered rounded
jittered-HasFactor (frac n d) = elim (Bool-cases (lt_num (of_ℕ 0) (frac n d))) [
  | inl pos ↦ elim (Bool-cases (lt_num (frac n d) (of_ℕ 1))) [
    | inl small ↦ (n, d, ground arith, λ delay. ground arith)
    | inr large ↦ (1, 0, omega arith, λ delay. ground arith)
  ]
  | inr zero' ↦ (0, 0, omega arith, λ delay. ground arith)
]
jittered-HasFactor _ = (0, 0, omega arith, λ delay. omega arith)

-- Jitter makes a delay longer, and at most doubles it.
pub jittered_bounds :
    (delay : ℕ) (j : Num) → (delay ≤ jittered delay j) × (jittered delay j ≤ 2 * delay)
unfolding HasFactor
jittered_bounds delay j =
    let (m, e, small, same) = jittered-HasFactor j in
    rw (same delay) (rounded-ge m e delay, rounded-le m e delay small)

pub jittered_mono : (j : Num) {x y : ℕ} → x ≤ y → jittered x j ≤ jittered y j
unfolding HasFactor
jittered_mono j {x} {y} h =
    let (m, e, small, same) = jittered-HasFactor j in rw (same x, same y) (rounded_mono m e h)

exponent_mono : {a b : ℕ} (base : ℕ) → a ≤ b → base * 2 ^ (max 1 a - 1) ≤ base * 2 ^ (max 1 b - 1)
exponent_mono base h = mul-le-mul_left base (pow-le-pow_right {n = 2} (omega arith) (omega arith))

-- The delay before the next ticket query is at least the exponential delay of the attempt cut off
-- at both limits, at most twice that, and lies between the limits.
pub ticket_backoff_range :
    (attempt : ℕ) (j : Num)
    → let base = clamp_ticket_delay (min_ticket_delay_ms * 2 ^ (max 1 attempt - 1)) in
      let delay = calculate_ticket_backoff_delay attempt j in
      (min_ticket_delay_ms ≤ delay)
      × (delay ≤ max_ticket_delay_ms)
      × (base ≤ delay)
      × (delay ≤ 2 * base)
unfolding calculate_ticket_backoff_delay
ticket_backoff_range attempt j =
    omega (
      arith,
      jittered_bounds (clamp_ticket_delay (min_ticket_delay_ms * 2 ^ (max 1 attempt - 1))) j,
    )

-- With the same jitter a later attempt waits no less.
pub ticket_backoff_mono :
    (a b : ℕ) (j : Num)
    → a ≤ b
    → calculate_ticket_backoff_delay a j ≤ calculate_ticket_backoff_delay b j
unfolding calculate_ticket_backoff_delay
ticket_backoff_mono a b j h =
    let grown = exponent_mono min_ticket_delay_ms h in
    let spread =
      jittered_mono j {x = clamp_ticket_delay (min_ticket_delay_ms * 2 ^ (max 1 a - 1))}
        {y = clamp_ticket_delay (min_ticket_delay_ms * 2 ^ (max 1 b - 1))} (omega (arith, grown)) in
    omega (arith, spread)

-- The delay before the next webhook delivery is at least the exponential delay of the attempt, at
-- most twice that, both cut off at the limit of 15 minutes.
pub webhook_backoff_range :
    (attempt : ℕ) (j : Num)
    → let base = initial_retry_delay_ms * 2 ^ (max 1 attempt - 1) in
      let delay = calculate_exponential_backoff attempt j in
      (min base max_retry_delay_ms ≤ delay) × (delay ≤ min (2 * base) max_retry_delay_ms)
unfolding calculate_exponential_backoff
webhook_backoff_range attempt j =
    omega (arith, jittered_bounds (initial_retry_delay_ms * 2 ^ (max 1 attempt - 1)) j)

-- With the same jitter a later attempt waits no less.
pub webhook_backoff_mono :
    (a b : ℕ) (j : Num)
    → a ≤ b
    → calculate_exponential_backoff a j ≤ calculate_exponential_backoff b j
unfolding calculate_exponential_backoff
webhook_backoff_mono a b j h =
    omega (arith, jittered_mono j (exponent_mono initial_retry_delay_ms h))
