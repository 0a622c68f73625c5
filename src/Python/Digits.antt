-- ===== src/Python/Digits.antt =====
-- Texts of decimal digits: how they are read by `int`, and how `str` prints them.
use native.Mathlib.Nat.{pow-suc}
use liqvera.Prelude.{
  ℕ, zero, suc, ◌+◌, ◌-◌, ◌*◌, ◌/◌, ◌^◌, ◌≤◌, ◌<◌, ◌≡◌, refl, true, false, [], ◌∷◌, ◌++◌, some,
  arith, length, length-append, all, All, All-append, Bool-cases, inl, inr, ◌==◌,
}
use liqvera.Python.{
  Str, Unicode, IsUnicode, is_empty, isdigit, max_str_digits, scan_digits, int_text, str_fuel,
  str_nat, zeros,
}

abbrev pub IsDigit : ℕ → Type 0
IsDigit c = (48 ≤ c) × (c < 58)

-- The number that digits spell behind `n`.
abbrev pub value : ℕ → Str → ℕ
value n [] = n
value n (c ∷ s) = value (n * 10 + (c - 48)) s

pub value-append : (n : ℕ) (s t : Str) → value n (s ++ t) ≡ value (value n s) t
value-append n [] t = refl
value-append n (c ∷ s) t = value-append (n * 10 + (c - 48)) s t

module _ (u : Unicode) (laws : IsUnicode u) where
  scan_digits-eq-value : (n : ℕ) (s : Str) → All IsDigit s → scan_digits u n s ≡ some (value n s)
  unfolding scan_digits
  scan_digits-eq-value n [] h = refl
  scan_digits-eq-value n (c ∷ s) ((low, high), h) =
      let e : 48 + (c - 48) ≡ c = omega arith in
      let d : u.decimal c ≡ some (c - 48) = rw e at (laws.decimal_ascii (c - 48) (omega arith)) in
      rw (d, scan_digits) (scan_digits-eq-value (n * 10 + (c - 48)) s h)

  pub int_text-eq-value :
      (s : Str) → All IsDigit s → length s ≤ max_str_digits → int_text u s ≡ some (value 0 s)
  unfolding int_text
  int_text-eq-value s h fits = ground (arith, scan_digits-eq-value 0 s h)

  all-is_digit : (s : Str) → All IsDigit s → all u.is_digit s ≡ true
  all-is_digit [] h = refl
  all-is_digit (c ∷ s) ((low, high), h) =
      let e : 48 + (c - 48) ≡ c = omega arith in
      let d : u.is_digit c ≡ true = rw e at (laws.digit_ascii (c - 48) (omega arith)) in
      rw (d, all-is_digit s h)

  pub isdigit-true : (s : Str) → is_empty s ≡ false → All IsDigit s → isdigit u s ≡ true
  unfolding isdigit
  isdigit-true s e h = rw (e, all-is_digit s h)

str_fuel-IsDigit : (f n : ℕ) → All IsDigit (str_fuel f n)
unfolding str_fuel
str_fuel-IsDigit zero n = tt
str_fuel-IsDigit (suc f) n = elim (Bool-cases (n / 10 == 0)) [
  | inl e ↦ rw e ((omega arith, ground arith), tt)
  | inr e ↦ rw e (
      All-append IsDigit (str_fuel f (n / 10)) _ (str_fuel-IsDigit f (n / 10))
        ((omega arith, omega arith), tt))
]

value-str_fuel : (f n : ℕ) → n < f → value 0 (str_fuel f n) ≡ n
unfolding str_fuel
value-str_fuel zero n h = absurd (omega arith)
value-str_fuel (suc f) n h = elim (Bool-cases (n / 10 == 0)) [
  | inl e ↦ rw e (omega arith)
  | inr e ↦ rw e (
      rw (value-append 0 (str_fuel f (n / 10)))
        (rw (value-str_fuel f (n / 10) (ground arith)) (omega arith)))
]

is_empty-append : (s : Str) (c : ℕ) → is_empty (s ++ c ∷ []) ≡ false
is_empty-append [] c = refl
is_empty-append (d ∷ s) c = refl

str_fuel-ne-empty : (f n : ℕ) → is_empty (str_fuel (suc f) n) ≡ false
unfolding str_fuel
str_fuel-ne-empty f n = elim (Bool-cases (n / 10 == 0)) [
  | inl e ↦ rw e
  | inr e ↦ rw e (is_empty-append _ _)
]

length-str_fuel : (f n k : ℕ) → n < 10 ^ suc k → length (str_fuel f n) ≤ suc k
unfolding str_fuel
length-str_fuel zero n k h = omega arith
length-str_fuel (suc f) n zero h = let e : n / 10 ≡ 0 = omega arith in rw e (omega arith)
length-str_fuel (suc f) n (suc k) h =
    let p = pow-suc 10 (suc k) in
    let rest = length-str_fuel f (n / 10) k (omega arith) in
    elim (Bool-cases (n / 10 == 0)) [
      | inl e ↦ rw e (omega arith)
      | inr e ↦ rw (e, length-append (str_fuel f (n / 10))) (omega arith)
    ]

pub str_nat-IsDigit : (n : ℕ) → All IsDigit (str_nat n)
unfolding str_nat
str_nat-IsDigit n = str_fuel-IsDigit (suc n) n

pub value-str_nat : (n : ℕ) → value 0 (str_nat n) ≡ n
unfolding str_nat
value-str_nat n = value-str_fuel (suc n) n (omega arith)

pub str_nat-ne-empty : (n : ℕ) → is_empty (str_nat n) ≡ false
unfolding str_nat
str_nat-ne-empty n = str_fuel-ne-empty n n

pub length-str_nat : (n k : ℕ) → n < 10 ^ suc k → length (str_nat n) ≤ suc k
unfolding str_nat
length-str_nat n k = length-str_fuel (suc n) n k

-- A text with leading zeros has the value of the rest.
pub value-zeros : (k : ℕ) (s : Str) → value 0 (zeros k ++ s) ≡ value 0 s
unfolding zeros
value-zeros zero s = refl
value-zeros (suc k) s = value-zeros k s
