-- ===== src/Decimal/Exact.antt =====
-- `from_decimal` is exact on the Decimals of at most eight places that fit.
use native.Mathlib.Nat.{div-add-mod', mod-lt, add-mul, mul_assoc}
use mathlib.Core.List.{append-nil}
use liqvera.Prelude.{
  ℕ, zero, suc, ◌+◌, ◌-◌, ◌*◌, ◌/◌, ◌%◌, ◌^◌, ◌≤◌, ◌<◌, ◌≡◌, refl, ap, Bool, true, false, [], ◌∷◌,
  arith, ok, All, All-append, length,
}
use liqvera.Prelude.Int.{
  ℤ, pos, negsuc, ◌*ℤ◌, pos_part-*ℤ-pos, neg_part-*ℤ-pos, pos-*ℤ-pos, eq_of_parts,
}
use liqvera.Python.{Str, Unicode, IsUnicode, split_on, str_nat, zero_padded, is_empty}
use liqvera.Python.Digits.{str_nat-IsDigit, str_nat-ne-empty, value-append}
use liqvera.Python.Padding.{
  IsPlain, All-IsPlain, zero_padded_lem, value-append-zeros, split_on-digits, split_on-point,
}
use liqvera.Exact.{parse_parts, make, scale, signed}
use liqvera.Exact.Range.{IsInt64, IsInt64-make}
use liqvera.Exact.RoundTrip.{
  parse_parts-whole, parse_parts-digits, parse-unsigned, parse-minus, Starts, digits-Starts,
}
use liqvera.Decimal.{fixed_magnitude, format_fixed, from_decimal}
use liqvera.Prelude.Arith.{power_pos}

-- 10 ** places * 10 ** (8 - places)
scale_split : (k : ℕ) → k ≤ 8 → 10 ^ k * 10 ^ (8 - k) ≡ scale
scale_split zero h = refl
scale_split (suc zero) h = refl
scale_split (suc (suc zero)) h = refl
scale_split (suc (suc (suc zero))) h = refl
scale_split (suc (suc (suc (suc zero)))) h = refl
scale_split (suc (suc (suc (suc (suc zero))))) h = refl
scale_split (suc (suc (suc (suc (suc (suc zero)))))) h = refl
scale_split (suc (suc (suc (suc (suc (suc (suc zero))))))) h = refl
scale_split (suc (suc (suc (suc (suc (suc (suc (suc zero)))))))) h = refl
scale_split (suc (suc (suc (suc (suc (suc (suc (suc (suc n))))))))) h = absurd (omega arith)

fixed_magnitude-IsPlain : (m k : ℕ) → All IsPlain (fixed_magnitude m k)
unfolding fixed_magnitude
fixed_magnitude-IsPlain m zero = All-IsPlain (str_nat m) (str_nat-IsDigit m)
fixed_magnitude-IsPlain m (suc k) =
    let d = (zero_padded_lem k (m % 10 ^ suc k) (mod-lt m (power_pos (suc k)))).0 in
    All-append IsPlain (str_nat (m / 10 ^ suc k)) _
      (All-IsPlain _ (str_nat-IsDigit (m / 10 ^ suc k)))
      ((omega arith, omega arith), All-IsPlain _ d)

fixed_magnitude-Starts : (m k : ℕ) → Starts (fixed_magnitude m k)
unfolding fixed_magnitude
fixed_magnitude-Starts m zero =
    rw append-nil at (digits-Starts (str_nat m) [] (str_nat-IsDigit m) (str_nat-ne-empty m))
fixed_magnitude-Starts m (suc k) =
    digits-Starts (str_nat (m / 10 ^ suc k)) _ (str_nat-IsDigit _) (str_nat-ne-empty _)

format-pos :
    (m k : ℕ) → format_fixed (record { coefficient = pos m; places = k }) ≡ fixed_magnitude m k
unfolding format_fixed
format-pos m k = ground arith

format-negsuc :
    (m k : ℕ)
    → format_fixed (record { coefficient = negsuc m; places = k })
      ≡ b'-' ∷ fixed_magnitude (suc m) k
unfolding format_fixed
format-negsuc m k = ground arith

negsuc-*ℤ-pos : (m j : ℕ) → negsuc m *ℤ pos j ≡ signed true (suc m * j)
negsuc-*ℤ-pos m j =
    eq_of_parts _ _ (rw (pos_part-*ℤ-pos (negsuc m) j, neg_part-*ℤ-pos (negsuc m) j) (ground arith))

ne_empty_of_length : (s : Str) (k : ℕ) → length s ≡ suc k → is_empty s ≡ false
ne_empty_of_length [] k h = absurd (omega arith)
ne_empty_of_length (c ∷ s) k h = refl

-- The whole part and the fraction, both counted in 1e-8.
recombine : (w f m power j : ℕ) → power * j ≡ scale → w * power + f ≡ m → w * scale + f * j ≡ m * j
recombine w f m power j p e = rw (← e, add-mul, mul_assoc, p)

module _ (u : Unicode) (laws : IsUnicode u) where
  parse_parts-fixed :
      (negative : Bool) (m k : ℕ)
      → k ≤ 8
      → m * 10 ^ (8 - k) < 10 ^ 20
      → parse_parts u negative (split_on b'.' (fixed_magnitude m k))
        ≡ make (signed negative (m * 10 ^ (8 - k)))
  unfolding fixed_magnitude
  parse_parts-fixed negative m zero h b =
      rw (split_on-digits (str_nat m) (str_nat-IsDigit m))
        (parse_parts-whole u laws negative m (omega arith))
  parse_parts-fixed negative m (suc k) h b =
      let power : ℕ = 10 ^ suc k in
      let w : ℕ = m / power in
      let f : ℕ = m % power in
      let (d, l, v) = zero_padded_lem k f (mod-lt m (power_pos (suc k))) in
      let r : Str = zero_padded (suc k) f in
      let j : ℕ = 10 ^ (8 - suc k) in
      let whole : w * scale + f * j ≡ m * j =
        recombine w f m power j (scale_split (suc k) h) (div-add-mod' m power) in
      rw (split_on-point (str_nat w) r (str_nat-IsDigit w) d) (
        rw
          (parse_parts-digits u laws negative w r (omega arith) d (ne_empty_of_length r k l)
            (omega (arith, l)))
          (rw (value-append 0 r, v, value-append-zeros, l)
            (ap (λ t. make (signed negative t)) whole)))

  -- Where the Unicode tables agree with ASCII, a Decimal of at most eight places whose scaled
  -- value fits an int64 is read exactly.
  pub from_decimal_exact :
      (c : ℤ) (k : ℕ)
      → k ≤ 8
      → IsInt64 (c *ℤ pos (10 ^ (8 - k)))
      → from_decimal u (record { coefficient = c; places = k })
        ≡ ok (record { scaled = c *ℤ pos (10 ^ (8 - k)) })
  unfolding from_decimal
  from_decimal_exact (pos m) k h v =
      let j : ℕ = 10 ^ (8 - k) in
      let t = fixed_magnitude m k in
      let p = pos_part-*ℤ-pos (pos m) j in
      rw
        (
          format-pos m k,
          parse-unsigned u laws t (fixed_magnitude-IsPlain m k) (fixed_magnitude-Starts m k),
        )
        (rw (parse_parts-fixed false m k h (omega (arith, v.below, p)))
          (rw (← pos-*ℤ-pos m j) (IsInt64-make (pos m *ℤ pos j) v)))
  from_decimal_exact (negsuc m) k h v =
      let j : ℕ = 10 ^ (8 - k) in
      let t = fixed_magnitude (suc m) k in
      let p = neg_part-*ℤ-pos (negsuc m) j in
      rw
        (
          format-negsuc m k,
          parse-minus u laws t (fixed_magnitude-IsPlain (suc m) k)
              (fixed_magnitude-Starts (suc m) k),
        )
        (rw (parse_parts-fixed true (suc m) k h (omega (arith, v.above, p)))
          (rw (← negsuc-*ℤ-pos m j) (IsInt64-make (negsuc m *ℤ pos j) v)))
