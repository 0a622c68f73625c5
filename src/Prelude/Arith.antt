-- ===== src/Prelude/Arith.antt =====
-- Products of natural numbers, and powers of ten.
use Prim.Native.Nat.{ℕ, zero, suc, ◌+◌, ◌-◌, ◌*◌, ◌^◌, ◌≤◌, ◌<◌}
use mathlib.Core.Path.{◌≡◌, sym, ap, ◌∙◌}
use native.Mathlib.Nat.{mul-add, pow-suc}
use native.Mathlib.Omega.{arith}

pub mul-sub-add : (n a b : ℕ) → b ≤ a → n * (a - b) + n * b ≡ n * a
mul-sub-add n a b h =
    let e : a - b + b ≡ a = omega arith in sym (mul-add n (a - b) b) ∙ ap (λ t. n * t) e

pub mul_mono : (a b n : ℕ) → a ≤ b → a * n ≤ b * n
mul_mono a b n h = grind arith

pub mul_mono_lt : (a b n : ℕ) → a < b → 0 < n → a * n < b * n
mul_mono_lt a b n h p = grind arith

pub power_pos : (k : ℕ) → 0 < 10 ^ k
power_pos zero = omega arith
power_pos (suc k) = omega (arith, pow-suc 10 k, power_pos k)
