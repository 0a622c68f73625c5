-- ===== src/Exact/Fraction/Ends.antt =====
-- Which expansions end, and that the loops which find out do.
use native.Mathlib.Nat.{
  div-add-mod', pow-zero, pow-suc, pow-succ', sub-add_cancel, mul-mod_right, div-lt_self,
  mul-div_cancel_left,
}
use liqvera.Prelude.{
  ℕ, zero, suc, ◌+◌, ◌-◌, ◌*◌, ◌/◌, ◌%◌, ◌^◌, ◌≤◌, ◌<◌, ◌≡◌, ◌≢◌, ◌↔◌, refl, sym, ap, ◌∙◌, true,
  ◌==◌, ==_iff, arith, Bool-cases, inl, inr, Result, ok, err,
}
use liqvera.Prelude.Int.{pos, ◌*ℤ◌, abs}
use liqvera.Python.{Raised, value_error, max_str_digits}
use liqvera.Decimal.{Decimal}
use liqvera.Exact.Fraction.{Fraction, strip_from, strip, is_terminating_fraction}

-- What the loop leaves: no factor `p`, and as many taken out as it counted.
pub record IsStripped (p d count : ℕ) (result : ℕ × ℕ) : Type 0 where
  pub taken : ℕ
  pub counted : result.1 ≡ count + taken
  pub product : p ^ taken * result.0 ≡ d
  pub rest : result.0 % p ≢ 0

quotient_pos : (q p : ℕ) → 0 < q * p → 0 < q
quotient_pos zero p h = absurd (omega arith)
quotient_pos (suc q) p h = omega arith

power_zero_mul : (p x : ℕ) → p ^ 0 * x ≡ x
power_zero_mul p x = rw (pow-zero p) (omega arith)

power_suc_mul : (p k x : ℕ) → p ^ suc k * x ≡ p * (p ^ k * x)
power_suc_mul p k x = rw (pow-suc p k) (omega arith)

one_more : (p t r q d : ℕ) → p ^ t * r ≡ q → q * p ≡ d → p ^ suc t * r ≡ d
one_more p t r q d h k =
    let swap : p ^ t * p * r ≡ p ^ t * r * p = omega arith in
    rw (pow-suc p t) (swap ∙ ap (λ x. x * p) h ∙ k)

divides : (p q r : ℕ) → r ≡ p * q → r % p ≡ 0
divides p q r e = rw e (mul-mod_right p q)

cancel : (p x y : ℕ) → 1 < p → p * x ≡ p * y → x ≡ y
cancel p x y h e =
    let p_pos : 0 < p = omega arith in
    sym (mul-div_cancel_left x p_pos) ∙ ap (λ z. z / p) e ∙ mul-div_cancel_left y p_pos

strip_from-IsStripped :
    (fuel p d count : ℕ)
    → 1 < p
    → 0 < d
    → d ≤ fuel
    → IsStripped p d count (strip_from fuel p d count)
unfolding strip_from
strip_from-IsStripped zero p d count h k enough = absurd (omega arith)
strip_from-IsStripped (suc fuel) p d count h k enough = elim (Bool-cases (d % p == 0)) [
  | inl e ↦
      let whole = div-add-mod' d p in
      let exact = (==_iff (d % p) 0).0 e in
      let smaller = div-lt_self k h in
      let some_left : 0 < d / p = quotient_pos (d / p) p (omega arith) in
      let later = strip_from-IsStripped fuel p (d / p) (suc count) h some_left (omega arith) in
      rw e (record {
        taken = suc later.taken;
        counted = omega (arith, later.counted);
        product =
            one_more p later.taken (strip_from fuel p (d / p) (suc count)).0 (d / p) d later.product
              (omega arith);
        rest = later.rest;
      })
  | inr e ↦ rw e (record {
    taken = 0;
    counted = omega arith;
    product = power_zero_mul p d;
    rest = λ z. cc (e, (==_iff (d % p) 0).1 z);
  })
]

-- The loop that divides a positive denominator by a factor above one ends within as many rounds as
-- the denominator, and leaves the quotient by the greatest power of the factor, with the exponent
-- as its count.
pub strip-IsStripped : (p d : ℕ) → 1 < p → 0 < d → IsStripped p d 0 (strip p d)
unfolding strip
strip-IsStripped p d h k = strip_from-IsStripped d p d 0 h k (omega arith)

-- Two ways to take the factors out leave the same.
same_rest : (p : ℕ) → 1 < p → (j k r m : ℕ) → p ^ j * r ≡ p ^ k * m → r % p ≢ 0 → m % p ≢ 0 → r ≡ m
same_rest p h zero zero r m e a b = sym (power_zero_mul p r) ∙ e ∙ power_zero_mul p m
same_rest p h zero (suc k) r m e a b =
    absurd (a (divides p (p ^ k * m) r (sym (power_zero_mul p r) ∙ e ∙ power_suc_mul p k m)))
same_rest p h (suc j) zero r m e a b =
    absurd (b (divides p (p ^ j * r) m (sym (power_zero_mul p m) ∙ sym e ∙ power_suc_mul p j r)))
same_rest p h (suc j) (suc k) r m e a b =
    same_rest p h j k r m
      (cancel p (p ^ j * r) (p ^ k * m) h (sym (power_suc_mul p j r) ∙ e ∙ power_suc_mul p k m)) a b

five_odd : (b : ℕ) → 5 ^ b % 2 ≡ 1
five_odd zero = refl
five_odd (suc b) = omega (arith, pow-suc 5 b, five_odd b)

-- The two loops of `is_terminating_fraction`, one behind the other.
module _ (v : Fraction) (k : 0 < v.denominator) where
  two : IsStripped 2 v.denominator 0 (strip 2 v.denominator)
  two = strip-IsStripped 2 v.denominator (omega arith) k

  odd : ℕ
  odd = (strip 2 v.denominator).0

  five : IsStripped 5 odd 0 (strip 5 odd)
  unfolding odd
  five =
      let odd_pos : 0 < odd = quotient_pos odd (2 ^ two.taken) (omega (arith, two.product)) in
      strip-IsStripped 5 odd (omega arith) odd_pos

  factors : (strip 5 odd).0 ≡ 1 → v.denominator ≡ 2 ^ two.taken * 5 ^ five.taken
  unfolding odd
  factors one =
      let fives : odd ≡ 5 ^ five.taken =
        sym five.product ∙ ap (λ x. 5 ^ five.taken * x) one ∙ omega arith in
      sym two.product ∙ ap (λ x. 2 ^ two.taken * x) fives

  none_left : (twos fives : ℕ) → v.denominator ≡ 2 ^ twos * 5 ^ fives → (strip 5 odd).0 ≡ 1
  unfolding odd
  none_left twos fives e =
      let same =
        same_rest 2 (omega arith) two.taken twos odd (5 ^ fives) (two.product ∙ e) two.rest
          (λ z. omega (arith, five_odd fives)) in
      same_rest 5 (omega arith) five.taken fives (strip 5 odd).0 1
        (five.product ∙ same ∙ omega arith) five.rest (λ z. omega arith)

  -- For a positive denominator is_terminating_fraction returns True exactly when the denominator
  -- is a power of two times a power of five.
  pub is_terminating_fraction_iff :
      (is_terminating_fraction v ≡ true)
      ↔ ((twos : ℕ) × (fives : ℕ) × (v.denominator ≡ 2 ^ twos * 5 ^ fives))
  unfolding is_terminating_fraction odd
  is_terminating_fraction_iff = (
    λ h. (two.taken, five.taken, factors ((==_iff (strip 5 odd).0 1).0 h)),
    λ (twos, fives, e). (==_iff (strip 5 odd).0 1).1 (none_left twos fives e),
  )

fill : (p t s : ℕ) → t ≤ s → p ^ (s - t) * p ^ t ≡ p ^ s
fill p t s h = sum (s - t) ∙ ap (λ x. p ^ x) (sub-add_cancel h)
  where
    sum : (x : ℕ) → p ^ x * p ^ t ≡ p ^ (x + t)
    sum zero = let e : t ≡ 0 + t = omega arith in power_zero_mul p (p ^ t) ∙ ap (λ y. p ^ y) e
    sum (suc x) =
        let e : suc (x + t) ≡ suc x + t = omega arith in
        power_suc_mul p x (p ^ t)
        ∙ ap (λ y. p * y) (sum x)
        ∙ sym (pow-succ' p (x + t))
        ∙ ap (λ y. p ^ y) e

-- The Decimal stands for the fraction.
pub record IsValue (v : Fraction) (d : Decimal) : Type 0 where
  pub same : d.coefficient *ℤ pos v.denominator ≡ v.numerator *ℤ pos (10 ^ d.places)

-- A Decimal of the fraction's value is returned, or has too many digits.
pub record IsWritten (v : Fraction) (r : Result Raised Decimal) : Type 0 where
  pub decimal : Decimal
  pub is_value : IsValue v decimal
  pub short : abs decimal.coefficient < 10 ^ max_str_digits → r ≡ ok decimal
  pub long : 10 ^ max_str_digits ≤ abs decimal.coefficient → r ≡ err value_error
