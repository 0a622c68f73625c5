-- ===== src/Amm/Quote.antt =====
-- Arithmetic of the two quotes: floors, ceilings and the constant product, over the naturals.
use native.Mathlib.Nat.{le-div_iff_mul-le, div-lt_iff_lt-mul, div-mul-le_self}
use liqvera.Prelude.Arith.{mul-sub-add}
use liqvera.Prelude.{ℕ, ◌+◌, ◌-◌, ◌*◌, ◌/◌, ◌≤◌, ◌<◌, ◌≡◌, ◌↔◌, arith}
use liqvera.Amm.{net_input, required_net}

pub quote-lt : (n rin rout : ℕ) → 0 < rin → 0 < rout → n * rout / (rin + n) < rout
quote-lt n rin rout h k = (div-lt_iff_lt-mul (omega arith)).1 (grind arith)

pub quote-le : (n rin rout : ℕ) → n * rout / (rin + n) * (rin + n) ≤ n * rout
quote-le n rin rout = div-mul-le_self (n * rout) (rin + n)

pub net-le : (a f : ℕ) → net_input a f ≤ a
unfolding net_input
net-le a f = omega arith

pub product-le :
    (n rin rout out : ℕ)
    → out ≤ rout
    → out * (rin + n) ≤ n * rout
    → rin * rout ≤ (rin + n) * (rout - out)
product-le n rin rout out h k =
    let s : (rin + n) * (rout - out) + (rin + n) * out ≡ (rin + n) * rout =
      mul-sub-add (rin + n) rout out h in
    omega arith

-- A rounded-up quotient is at most `n` when the product covers it.
ceil-le_iff : (x d n : ℕ) → 0 < d → ((x + d - 1) / d ≤ n) ↔ (x ≤ n * d)
ceil-le_iff x d n h =
    let e = div-lt_iff_lt-mul {k = d} {x = x + d - 1} {y = n + 1} h in
    (λ p. omega (arith, e.0 (omega arith)), λ p. omega (arith, e.1 (omega arith)))

-- The quote reaches `q` exactly when the net input is at least `required_net`.
pub quote-reaches_iff :
    (q n rin rout : ℕ)
    → 0 < rin
    → q < rout
    → (q ≤ n * rout / (rin + n)) ↔ (required_net q rin rout ≤ n)
unfolding required_net
quote-reaches_iff q n rin rout h k =
    let a = le-div_iff_mul-le {k = rin + n} {x = q} {y = n * rout} (omega arith) in
    let b = ceil-le_iff (q * rin) (rout - q) n (omega arith) in
    let s : n * (rout - q) + n * q ≡ n * rout = mul-sub-add n rout q (omega arith) in
    (λ p. b.1 (omega (arith, a.0 p)), λ p. a.1 (omega (arith, b.0 p)))

pub required_net_pos : (q rin rout : ℕ) → 0 < q → 0 < rin → q < rout → 0 < required_net q rin rout
unfolding required_net
required_net_pos q rin rout h k l =
    let a = ceil-le_iff (q * rin) (rout - q) 0 (omega arith) in
    let b : 0 < q * rin = grind arith in grind (arith, a.0)

-- The net input is at least `r` exactly when the input is at least the inverse of the fee.
pub net-reaches_iff :
    (r a f : ℕ)
    → 0 < r
    → f < 10_000
    → (r ≤ net_input a f) ↔ ((r - 1) * 10_000 / (10_000 - f) + 1 ≤ a)
unfolding net_input
net-reaches_iff r a f h k =
    let e = div-lt_iff_lt-mul {k = 10_000 - f} {x = (r - 1) * 10_000} {y = a} (omega arith) in
    let s : a * (10_000 - f) + a * f ≡ a * 10_000 = mul-sub-add a 10_000 f (omega arith) in
    (λ p. omega (arith, e.1 (omega arith)), λ p. omega (arith, e.0 (omega arith)))

pub net_mono : (a b f : ℕ) → a ≤ b → f < 10_000 → net_input a f ≤ net_input b f
unfolding net_input
net_mono a b f h k =
    let s : a * (10_000 - f) + a * f ≡ a * 10_000 = mul-sub-add a 10_000 f (omega arith) in
    let t : b * (10_000 - f) + b * f ≡ b * 10_000 = mul-sub-add b 10_000 f (omega arith) in
    let u : a * (10_000 - f) ≤ b * (10_000 - f) = grind arith in omega arith
