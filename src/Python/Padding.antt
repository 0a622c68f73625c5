-- ===== src/Python/Padding.antt =====
-- Digits behind zeros, and where texts are split and stripped.
use native.Mathlib.Nat.{pow-suc, sub-zero}
use mathlib.Core.List.{append-nil, reverse-cons, reverse-reverse}
use liqvera.Prelude.{
  ℕ, zero, suc, ◌+◌, ◌-◌, ◌*◌, ◌^◌, ◌≤◌, ◌<◌, ◌≡◌, ◌≢◌, refl, ap, true, false, [], ◌∷◌, ◌++◌,
  reverse, arith, length, length-append, All, All-append, Bool-cases, inl, inr, ◌==◌, ==_iff, ◌&&◌,
  if◌then◌else◌,
}
use liqvera.Python.{
  Str, Unicode, IsUnicode, is_empty, drop_spaces, strip, split_on, str_nat, zeros, zero_padded,
  rstrip_zeros,
}
use liqvera.Python.Digits.{
  value-zeros, IsDigit, value, str_nat-IsDigit, value-str_nat, length-str_nat,
}

pub zeros-IsDigit : (k : ℕ) → All IsDigit (zeros k)
unfolding zeros
zeros-IsDigit zero = tt
zeros-IsDigit (suc k) = ((omega arith, omega arith), zeros-IsDigit k)

pub length-zeros : (k : ℕ) → length (zeros k) ≡ k
unfolding zeros
length-zeros zero = refl
length-zeros (suc k) = ap suc (length-zeros k)

-- A number below 10 ** width is printed in exactly `width` digits.
pub zero_padded_lem :
    (k n : ℕ)
    → n < 10 ^ suc k
    → All IsDigit (zero_padded (suc k) n)
      × (length (zero_padded (suc k) n) ≡ suc k)
      × (value 0 (zero_padded (suc k) n) ≡ n)
unfolding zero_padded
zero_padded_lem k n h = (
  All-append IsDigit (zeros (suc k - length (str_nat n))) (str_nat n) (zeros-IsDigit _)
      (str_nat-IsDigit n),
  rw (length-append (zeros (suc k - length (str_nat n))), length-zeros)
      (omega (arith, length-str_nat n k h)),
  rw value-zeros (value-str_nat n),
)

-- `rstrip("0")` keeps the digits, and the zeros that it takes off can be put back.
pub rstrip_zeros-IsDigit : (s : Str) → All IsDigit s → All IsDigit (rstrip_zeros s)
unfolding rstrip_zeros
rstrip_zeros-IsDigit [] h = tt
rstrip_zeros-IsDigit (c ∷ s) h = ground (arith, rstrip_zeros-IsDigit s h.1)

pub length-rstrip_zeros : (s : Str) → length (rstrip_zeros s) ≤ length s
unfolding rstrip_zeros
length-rstrip_zeros [] = omega arith
length-rstrip_zeros (c ∷ s) = ground (arith, length-rstrip_zeros s)

nil_of_is_empty : (s : Str) → is_empty s ≡ true → s ≡ []
nil_of_is_empty [] h = refl
nil_of_is_empty (c ∷ s) h = cc

-- Putting back what was taken off, one character on: the character was a zero and went too, or
-- it stays.
rstrip_step :
    (c : ℕ) (s r : Str)
    → length r ≤ length s
    → r ++ zeros (length s - length r) ≡ s
    → let t = if c == b'0' && is_empty r then [] else c ∷ r in
      t ++ zeros (suc (length s) - length t) ≡ c ∷ s
unfolding zeros
rstrip_step c s [] l e = elim (Bool-cases (c == b'0')) [
  | inl z ↦ rw z (
      let same : length s - 0 ≡ length s = omega arith in
      cc (same, (==_iff c b'0').0 z, sub-zero (suc (length s))))
  | inr n ↦ rw n (let same : suc (length s) - 1 ≡ length s - 0 = omega arith in rw (same, e))
]
rstrip_step c s (d ∷ r) l e = elim (Bool-cases (c == b'0')) [
  | inl z ↦ rw z (
      let same : suc (length s) - suc (suc (length r)) ≡ length s - suc (length r) = omega arith in
      rw (same, e))
  | inr n ↦ rw n (
      let same : suc (length s) - suc (suc (length r)) ≡ length s - suc (length r) = omega arith in
      rw (same, e))
]

pub rstrip_zeros-append-zeros :
    (s : Str) → rstrip_zeros s ++ zeros (length s - length (rstrip_zeros s)) ≡ s
unfolding rstrip_zeros zeros
rstrip_zeros-append-zeros [] = refl
rstrip_zeros-append-zeros (c ∷ s) =
    rstrip_step c s (rstrip_zeros s) (length-rstrip_zeros s) (rstrip_zeros-append-zeros s)

pub rstrip_zeros-ne-empty : (s : Str) → value 0 s ≢ 0 → is_empty (rstrip_zeros s) ≡ false
rstrip_zeros-ne-empty s h = elim (Bool-cases (is_empty (rstrip_zeros s))) [
  | inl e ↦
      let n : rstrip_zeros s ≡ [] = nil_of_is_empty (rstrip_zeros s) e in
      let k : ℕ = length s - length (rstrip_zeros s) in
      let same : zeros k ≡ s = cc (n, rstrip_zeros-append-zeros s) in
      absurd (h (rw (← same) (rw (← append-nil (zeros k)) (value-zeros k []))))
  | inr e ↦ e
]

-- Texts without spaces, exponents or names: digits, a sign and a point.
abbrev pub IsPlain : ℕ → Type 0
IsPlain c = (43 ≤ c) × (c < 58)

pub All-IsPlain : (s : Str) → All IsDigit s → All IsPlain s
All-IsPlain [] h = tt
All-IsPlain (c ∷ s) (d, h) = (omega arith, All-IsPlain s h)

All-reverse : (s : Str) → All IsPlain s → All IsPlain (reverse s)
All-reverse [] h = tt
All-reverse (c ∷ s) (d, h) =
    rw (reverse-cons c s) (All-append IsPlain (reverse s) _ (All-reverse s h) (d, tt))

module _ (u : Unicode) (laws : IsUnicode u) where
  drop_spaces-plain : (s : Str) → All IsPlain s → drop_spaces u s ≡ s
  unfolding drop_spaces
  drop_spaces-plain [] h = refl
  drop_spaces-plain (c ∷ s) (d, h) = rw (laws.space_ascii c (omega arith) (omega arith))

  pub strip-plain : (s : Str) → All IsPlain s → strip u s ≡ s
  unfolding strip
  strip-plain s h =
      rw (drop_spaces-plain s h)
        (rw (drop_spaces-plain (reverse s) (All-reverse s h)) (reverse-reverse s))

pub split_on-digits : (s : Str) → All IsDigit s → split_on b'.' s ≡ s ∷ []
unfolding split_on
split_on-digits [] h = refl
split_on-digits (c ∷ s) (d, h) = rw (split_on-digits s h, split_on) (ground arith)

pub split_on-point :
    (s t : Str) → All IsDigit s → All IsDigit t → split_on b'.' (s ++ (b'.' ∷ t)) ≡ s ∷ t ∷ []
unfolding split_on
split_on-point [] t h k = rw (split_on-digits t k)
split_on-point (c ∷ s) t (d, h) k = rw (split_on-point s t h k, split_on) (ground arith)

-- Zeros at the end multiply the value by powers of ten.
pub value-append-zeros : (n k : ℕ) → value n (zeros k) ≡ n * 10 ^ k
unfolding zeros
value-append-zeros n zero = omega arith
value-append-zeros n (suc k) =
    let p = pow-suc 10 k in
    let e : n * 10 ^ suc k ≡ n * (10 ^ k * 10) = ap (λ t. n * t) p in
    omega (arith, value-append-zeros (n * 10 + (b'0' - 48)) k)
