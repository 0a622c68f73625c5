-- ===== src/Decimal/Order.antt =====
-- The order of Decimals by value.
use native.Mathlib.Nat.{lt_of_mul-lt-mul_right, eq_of_mul-eq-mul_right}
use liqvera.Prelude.Arith.{mul_mono, mul_mono_lt, power_pos}
use liqvera.Prelude.{ℕ, ◌+◌, ◌*◌, ◌^◌, ◌≤◌, ◌<◌, ◌≡◌, ◌↔◌, true, false, ap, arith}
use liqvera.Prelude.Int.{pos_part, neg_part, pos_part-*ℤ-pos, neg_part-*ℤ-pos}
use liqvera.Decimal.{Decimal, lt, le, eq}

abbrev up : Decimal → ℕ
up d = pos_part d.coefficient

abbrev down : Decimal → ℕ
down d = neg_part d.coefficient

abbrev unit : Decimal → ℕ
unit d = 10 ^ d.places

unit_pos : (d : Decimal) → 0 < unit d
unit_pos d = power_pos d.places

pub lt_iff :
    (a b : Decimal)
    → (lt a b ≡ true) ↔ (up a * unit b + down b * unit a < up b * unit a + down a * unit b)
unfolding lt
lt_iff a b = simp (pos_part-*ℤ-pos, neg_part-*ℤ-pos) (ground arith)

pub le_iff :
    (a b : Decimal)
    → (le a b ≡ true) ↔ (up a * unit b + down b * unit a ≤ up b * unit a + down a * unit b)
unfolding le
le_iff a b = simp (pos_part-*ℤ-pos, neg_part-*ℤ-pos) (ground arith)

pub eq_iff :
    (a b : Decimal)
    → (eq a b ≡ true) ↔ (up a * unit b + down b * unit a ≡ up b * unit a + down a * unit b)
unfolding eq
eq_iff a b = simp (pos_part-*ℤ-pos, neg_part-*ℤ-pos) (ground arith)

module _ (pa na A pb nb B pc nc C : ℕ) (ab : pa * B + nb * A < pb * A + na * B)
    (positive : 0 < C) where
  times_right : pa * C * B + nb * A * C < pb * A * C + na * C * B
  times_right =
      let h : (pa * B + nb * A) * C < (pb * A + na * B) * C = mul_mono_lt _ _ C ab positive in
      omega arith

  chain : pb * C + nc * B ≤ pc * B + nb * C → 0 < A → pa * C + nc * A < pc * A + na * C
  chain bc hA = lt_of_mul-lt-mul_right B (
      let h : (pb * C + nc * B) * A ≤ (pc * B + nb * C) * A = mul_mono _ _ A bc in
      omega (arith, times_right))

pub lt_trans : (a b c : Decimal) → lt a b ≡ true → lt b c ≡ true → lt a c ≡ true
lt_trans a b c h k = (lt_iff a c).1 (
    chain (up a) (down a) (unit a) (up b) (down b) (unit b) (up c) (down c) (unit c)
      ((lt_iff a b).0 h) (unit_pos c) (omega (arith, (lt_iff b c).0 k)) (unit_pos a))

pub lt_of_lt_of_le : (a b c : Decimal) → lt a b ≡ true → le b c ≡ true → lt a c ≡ true
lt_of_lt_of_le a b c h k = (lt_iff a c).1 (
    chain (up a) (down a) (unit a) (up b) (down b) (unit b) (up c) (down c) (unit c)
      ((lt_iff a b).0 h) (unit_pos c) ((le_iff b c).0 k) (unit_pos a))

pub lt_irrefl : (a : Decimal) → lt a a ≡ false
unfolding lt
lt_irrefl a = ground arith

pub eq_refl : (a : Decimal) → eq a a ≡ true
unfolding eq
eq_refl a = ground arith

pub eq_comm : (a b : Decimal) → eq a b ≡ eq b a
unfolding eq
eq_comm a b = ground arith

-- A price below another is not equal to it.
pub eq-false_of_lt : (a b : Decimal) → lt a b ≡ true → eq a b ≡ false
unfolding eq lt
eq-false_of_lt a b h = ground arith

pub le_of_not_lt : (a b : Decimal) → lt a b ≡ false → le b a ≡ true
unfolding le lt
le_of_not_lt a b h = ground arith

module _ (pa na A pb nb B pc nc C : ℕ) (ab : pa * B + nb * A ≡ pb * A + na * B)
    (bc : pb * C + nc * B ≡ pc * B + nb * C) (positive : 0 < B) where
  eq_chain : pa * C + nc * A ≡ pc * A + na * C
  eq_chain = eq_of_mul-eq-mul_right B positive _ _ (
      let h : (pa * B + nb * A) * C ≡ (pb * A + na * B) * C = ap (λ t. t * C) ab in
      let k : (pb * C + nc * B) * A ≡ (pc * B + nb * C) * A = ap (λ t. t * A) bc in omega arith)

pub eq_trans : (a b c : Decimal) → eq a b ≡ true → eq b c ≡ true → eq a c ≡ true
eq_trans a b c h k = (eq_iff a c).1 (
    eq_chain (up a) (down a) (unit a) (up b) (down b) (unit b) (up c) (down c) (unit c)
      ((eq_iff a b).0 h) ((eq_iff b c).0 k) (unit_pos b))

pub lt_of_not_le : (a b : Decimal) → le b a ≡ false → lt a b ≡ true
unfolding le lt
lt_of_not_le a b h = ground arith

pub le-false_of_lt : (a b : Decimal) → lt a b ≡ true → le b a ≡ false
unfolding le lt
le-false_of_lt a b h = ground arith
