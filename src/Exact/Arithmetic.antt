-- ===== src/Exact/Arithmetic.antt =====
-- What `add`, `sub`, `mul` and `div` of `ExactDecimal` return.
use native.Mathlib.Nat.{div-add-mod', mod-lt}
use liqvera.Prelude.{ℕ, suc, ◌+◌, ◌*◌, ◌/◌, ◌<◌, ◌≡◌, ok, arith}
use liqvera.Prelude.Int.{
  ℤ, pos, negsuc, ◌+ℤ◌, ◌-ℤ◌, ◌*ℤ◌, ◌≤ℤ◌, ◌<ℤ◌, int_laws, pos_part-*ℤ-pos, neg_part-*ℤ-pos,
  pos-+ℤ-one, negsuc-+ℤ-one,
}
use liqvera.Exact.{ExactDecimal, add, sub, mul, floor_div, scale}
use liqvera.Exact.Range.{IsInt64, make-IsInt64, IsInt64-make}

-- Python's floor quotient: the multiple of the divisor next to the dividend from below.
floor_div-pos :
    (a : ℤ) (d : ℕ)
    → 0 < d
    → (floor_div a (pos d) *ℤ pos d ≤ℤ a) × (a <ℤ (floor_div a (pos d) +ℤ pos 1) *ℤ pos d)
unfolding floor_div
floor_div-pos (pos a) d h =
    let e = div-add-mod' a d in
    let m = mod-lt a h in
    let s : (a / d + 1) * d ≡ a / d * d + d = omega arith in
    simp (pos_part-*ℤ-pos, neg_part-*ℤ-pos, pos-+ℤ-one) (omega arith, omega arith)
floor_div-pos (negsuc a) d h =
    let e = div-add-mod' a d in
    let m = mod-lt a h in
    let s : suc (a / d) * d ≡ a / d * d + d = omega arith in
    let (p, n) = negsuc-+ℤ-one (a / d) in
    simp (pos_part-*ℤ-pos, neg_part-*ℤ-pos, p, n) (omega arith, omega arith)

-- The product that mul returns is the exact product rounded down to a multiple of 1e-8.
pub mul_floor :
    (x y : ExactDecimal) {z : ExactDecimal}
    → mul x y ≡ ok z
    → (z.scaled *ℤ pos scale ≤ℤ x.scaled *ℤ y.scaled)
      × (x.scaled *ℤ y.scaled <ℤ (z.scaled +ℤ pos 1) *ℤ pos scale)
unfolding mul
mul_floor x y h =
    let (e, fits) = make-IsInt64 (floor_div (x.scaled *ℤ y.scaled) (pos scale)) h in
    rw e (floor_div-pos (x.scaled *ℤ y.scaled) scale (omega arith))

-- For a value in the range of an int64, what add returns is the exact sum, and sub takes the other
-- summand back off.
pub sub-add :
    (x y : ExactDecimal) {z : ExactDecimal}
    → IsInt64 x.scaled
    → add x y ≡ ok z
    → (z.scaled ≡ x.scaled +ℤ y.scaled) × (sub z y ≡ ok x)
unfolding add sub
sub-add x y {z} v h =
    let (e, fits) = make-IsInt64 (x.scaled +ℤ y.scaled) h in
    let back : z.scaled -ℤ y.scaled ≡ x.scaled = rw e (omega int_laws) in
    (e, rw back (IsInt64-make x.scaled v))
