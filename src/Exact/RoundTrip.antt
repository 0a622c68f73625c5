-- ===== src/Exact/RoundTrip.antt =====
-- `ExactDecimal.parse` reads back what `__str__` prints.
use mathlib.Core.List.{append-nil}
use liqvera.Prelude.{
  ℕ, suc, ◌+◌, ◌-◌, ◌*◌, ◌/◌, ◌%◌, ◌^◌, ◌≤◌, ◌<◌, ◌≡◌, ◌≢◌, refl, Bool, true, false, [], ◌∷◌, ◌++◌,
  arith, length, length-append, ap, ◌∙◌, All, All-append, Bool-cases, inl, inr, ◌==◌, ok,
}
use liqvera.Prelude.Int.{ℤ, pos, negsuc}
use liqvera.Python.{
  Str, Unicode, IsUnicode, is_empty, any, str_eq_iff, split_on, str_nat, zeros, zero_padded,
  rstrip_zeros,
}
use liqvera.Python.Digits.{
  IsDigit, value, int_text-eq-value, isdigit-true, str_nat-IsDigit, value-str_nat, str_nat-ne-empty,
  length-str_nat,
}
use liqvera.Python.Padding.{
  zero_padded_lem, rstrip_zeros-IsDigit, rstrip_zeros-append-zeros, rstrip_zeros-ne-empty, IsPlain,
  All-IsPlain, strip-plain, split_on-digits, split_on-point, length-rstrip_zeros, zeros-IsDigit,
  length-zeros,
}
use liqvera.Exact.{
  ExactDecimal, make, take_sign, is_marker, signed, parse_parts, parse, magnitude_text, to_text,
  scale, decimals,
}
use liqvera.Exact.Range.{IsInt64, IsInt64-make}

module _ (u : Unicode) (laws : IsUnicode u) where
  pub parse_parts-whole :
      (negative : Bool) (w : ℕ)
      → w < 10 ^ 12
      → parse_parts u negative (str_nat w ∷ []) ≡ make (signed negative (w * scale))
  unfolding parse_parts
  parse_parts-whole negative w h =
      let fits = length-str_nat w 11 h in
      rw (str_nat-ne-empty w) (
        rw (isdigit-true u laws (str_nat w) (str_nat-ne-empty w) (str_nat-IsDigit w)) (
          rw (int_text-eq-value u laws (str_nat w) (str_nat-IsDigit w) (omega arith))
            (rw (value-str_nat w))))

  -- Up to eight digits behind the point stand for themselves, filled up with zeros.
  pub parse_parts-digits :
      (negative : Bool) (w : ℕ) (r : Str)
      → w < 10 ^ 12
      → All IsDigit r
      → is_empty r ≡ false
      → length r ≤ 8
      → parse_parts u negative (str_nat w ∷ r ∷ [])
        ≡ make (signed negative (w * scale + value 0 (r ++ zeros (decimals - length r))))
  unfolding parse_parts
  parse_parts-digits negative w r hw rd rn short =
      let fits = length-str_nat w 11 hw in
      let p : Str = r ++ zeros (decimals - length r) in
      let d : All IsDigit p = All-append IsDigit r _ rd (zeros-IsDigit _) in
      let l : length p ≡ length r + (decimals - length r) =
        length-append r _ ∙ ap (λ t. length r + t) (length-zeros (decimals - length r)) in
      rw (str_nat-ne-empty w, rn)
        (rw (isdigit-true u laws (str_nat w) (str_nat-ne-empty w) (str_nat-IsDigit w)) (
          rw (isdigit-true u laws r rn rd) (
            rw (int_text-eq-value u laws (str_nat w) (str_nat-IsDigit w) (omega arith)) (
              rw (int_text-eq-value u laws p d (omega (arith, l)))
                (rw (value-str_nat w) (ground (arith, short)))))))

  parse_parts-fraction :
      (negative : Bool) (w f : ℕ)
      → w < 10 ^ 12
      → f < 10 ^ 8
      → f ≢ 0
      → parse_parts u negative (str_nat w ∷ rstrip_zeros (zero_padded decimals f) ∷ [])
        ≡ make (signed negative (w * scale + f))
  parse_parts-fraction negative w f hw hf nz =
      let (d, l, v) = zero_padded_lem 7 f hf in
      let p : Str = zero_padded decimals f in
      let r : Str = rstrip_zeros p in
      let rn = rstrip_zeros-ne-empty p (λ e. nz (omega (arith, v))) in
      let short : length r ≤ 8 = omega (arith, length-rstrip_zeros p) in
      let back : r ++ zeros (decimals - length r) ≡ p = rw l at (rstrip_zeros-append-zeros p) in
      rw (parse_parts-digits negative w r hw (rstrip_zeros-IsDigit p d) rn short) (rw (back, v))

  -- The printed magnitude, cut at its point, has the value that was printed.
  parse_parts-magnitude :
      (negative : Bool) (m : ℕ)
      → m < 10 ^ 20
      → parse_parts u negative (split_on b'.' (magnitude_text m)) ≡ make (signed negative m)
  unfolding magnitude_text
  parse_parts-magnitude negative m h =
      let w : ℕ = m / scale in
      let f : ℕ = m % scale in
      elim (Bool-cases (f == 0)) [
        | inl e ↦
            let whole : m / scale * scale ≡ m = ground arith in
            rw (e, split_on-digits (str_nat w) (str_nat-IsDigit w))
              (rw (parse_parts-whole negative w (omega arith)) (rw whole))
        | inr e ↦
            let whole : m / scale * scale + m % scale ≡ m = omega arith in
            let r : Str = rstrip_zeros (zero_padded decimals f) in
            let rd =
              rstrip_zeros-IsDigit (zero_padded decimals f) (zero_padded_lem 7 f (omega arith)).0 in
            rw (e, split_on-point (str_nat w) r (str_nat-IsDigit w) rd)
              (rw (parse_parts-fraction negative w f (omega arith) (omega arith) (ground arith))
                (rw whole))
      ]

magnitude_text-IsPlain : (m : ℕ) → All IsPlain (magnitude_text m)
unfolding magnitude_text
magnitude_text-IsPlain m =
    let w = All-IsPlain (str_nat (m / scale)) (str_nat-IsDigit (m / scale)) in
    let p = zero_padded decimals (m % scale) in
    let f =
      All-IsPlain (rstrip_zeros p)
        (rstrip_zeros-IsDigit p (zero_padded_lem 7 (m % scale) (omega arith)).0) in
    elim (Bool-cases (m % scale == 0)) [
      | inl e ↦ rw e w
      | inr e ↦ rw e (All-append IsPlain (str_nat (m / scale)) _ w ((omega arith, omega arith), f))
    ]

-- The text of a magnitude starts with a digit.
pub data Starts : Str → Type 0 where
  starts : (c : ℕ) (s : Str) → IsDigit c → Starts (c ∷ s)

pub digits-Starts : (s t : Str) → All IsDigit s → is_empty s ≡ false → Starts (s ++ t)
digits-Starts [] t h e = cc
digits-Starts (c ∷ s) t (d, h) e = starts c (s ++ t) d

magnitude_text-Starts : (m : ℕ) → Starts (magnitude_text m)
unfolding magnitude_text
magnitude_text-Starts m =
    let go = λ (t : Str).
      digits-Starts (str_nat (m / scale)) t (str_nat-IsDigit (m / scale))
        (str_nat-ne-empty (m / scale)) in
    elim (Bool-cases (m % scale == 0)) [
      | inl e ↦ rw e (rw append-nil at (go []))
      | inr e ↦ rw e (go _)
    ]

take_sign-digit : (c : ℕ) (s : Str) → IsDigit c → take_sign (c ∷ s) ≡ (false, c ∷ s)
unfolding take_sign
take_sign-digit c s d = ground arith

to_text-pos : (n : ℕ) → to_text (record { scaled = pos n }) ≡ magnitude_text n
unfolding to_text
to_text-pos n = ground arith

to_text-negsuc : (n : ℕ) → to_text (record { scaled = negsuc n }) ≡ b'-' ∷ magnitude_text (suc n)
unfolding to_text
to_text-negsuc n = ground arith

pub signed-negsuc : (n : ℕ) → signed true (suc n) ≡ negsuc n
signed-negsuc n = ground arith

plain-no-marker : (s : Str) → All IsPlain s → any is_marker s ≡ false
plain-no-marker [] h = refl
plain-no-marker (c ∷ s) (d, h) = rw (plain-no-marker s h) (ground arith)

module _ (u : Unicode) (laws : IsUnicode u) where
  pub parse-unsigned :
      (s : Str) → All IsPlain s → Starts s → parse u s ≡ parse_parts u false (split_on b'.' s)
  unfolding parse
  parse-unsigned _ h (starts c s d) = rw (strip-plain u laws (c ∷ s) h) (
      rw ((str_eq_iff (c ∷ s) (c ∷ s)).1 refl)
        (rw (take_sign-digit c s d) (rw (plain-no-marker (c ∷ s) h))))

  pub parse-minus :
      (s : Str)
      → All IsPlain s
      → Starts s
      → parse u (b'-' ∷ s) ≡ parse_parts u true (split_on b'.' s)
  unfolding parse
  parse-minus _ h (starts c s d) =
      rw (strip-plain u laws (b'-' ∷ c ∷ s) ((omega arith, omega arith), h))
        (rw ((str_eq_iff (b'-' ∷ c ∷ s) (b'-' ∷ c ∷ s)).1 refl) (rw (plain-no-marker (c ∷ s) h)))

  parse-to_text_at :
      (z : ℤ) → IsInt64 z → parse u (to_text (record { scaled = z })) ≡ ok (record { scaled = z })
  parse-to_text_at (pos n) v =
      rw
        (
          to_text-pos n,
          parse-unsigned (magnitude_text n) (magnitude_text-IsPlain n) (magnitude_text-Starts n),
        )
        (rw (parse_parts-magnitude u laws false n (omega (arith, v.below)))
          (IsInt64-make (pos n) v))
  parse-to_text_at (negsuc n) v =
      let m = magnitude_text (suc n) in
      rw
        (
          to_text-negsuc n,
          parse-minus m (magnitude_text-IsPlain (suc n)) (magnitude_text-Starts (suc n)),
        )
        (rw (parse_parts-magnitude u laws true (suc n) (omega (arith, v.above)))
          (rw (signed-negsuc n) (IsInt64-make (negsuc n) v)))

  -- Where the Unicode tables agree with ASCII, every value in the range of an int64 is read back
  -- by parse from what __str__ prints.
  pub parse-to_text : (e : ExactDecimal) → IsInt64 e.scaled → parse u (to_text e) ≡ ok e
  parse-to_text e v = parse-to_text_at e.scaled v
