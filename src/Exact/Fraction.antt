-- ===== src/Exact/Fraction.antt =====
-- The fractions of exact.py whose decimal expansion ends. A Fraction is reduced and its denominator
-- is positive; the rounding of the others, in a decimal context, is a parameter.
pub mod Ends
use liqvera.Prelude.{
  ℕ, zero, suc, ◌+◌, ◌-◌, ◌*◌, ◌/◌, ◌%◌, ◌^◌, Bool, ◌==◌, leb, if◌then◌else◌, Result, ok, err,
}
use liqvera.Prelude.Int.{ℤ, pos, ◌*ℤ◌, abs}
use liqvera.Python.{Raised, value_error, max_str_digits}
use liqvera.Decimal.{Decimal}

pub record Fraction : Type 0 where
  pub numerator : ℤ
  pub denominator : ℕ

-- `while denominator % p == 0: denominator //= p; count += 1`, with fuel
unfoldable pub strip_from : ℕ → ℕ → ℕ → ℕ → ℕ × ℕ
strip_from zero p d count = (d, count)
strip_from (suc fuel) p d count =
    let rest = strip_from fuel p (d / p) (suc count) in if d % p == 0 then rest else (d, count)

-- The loop from a count of zero. The denominator itself is fuel enough: each round makes it smaller.
unfoldable pub strip : ℕ → ℕ → ℕ × ℕ
unfolding strip_from
strip p d = strip_from d p d 0

-- `is_terminating_fraction`
unfoldable pub is_terminating_fraction : Fraction → Bool
unfolding strip
is_terminating_fraction v = (strip 5 (strip 2 v.denominator).0).0 == 1

abbrev pub max : ℕ → ℕ → ℕ
max a b = if leb a b then b else a

-- The Decimal of an expansion that ends, over the two counts
abbrev pub expansion : ℤ → ℕ → ℕ → Decimal
expansion numerator twos fives = record {
  coefficient =
      numerator *ℤ pos (2 ^ (max twos fives - twos)) *ℤ pos (5 ^ (max twos fives - fives));
  places = max twos fives;
}

-- Texts of digits from here on are longer than Python's limit.
unfoldable pub digits_limit : ℕ
digits_limit = 10 ^ max_str_digits

-- `Decimal((sign, digits, -scale))`, where `str(abs(coefficient))` raises ValueError on a coefficient
-- of too many digits
unfoldable pub written_out : Decimal → Result Raised Decimal
written_out d = if leb digits_limit (abs d.coefficient) then err value_error else ok d

-- `decimal_from_fraction`, with `_rounded_decimal` for `rounded`
unfoldable pub decimal_from_fraction :
    (Fraction → Result Raised Decimal) → Fraction → Result Raised Decimal
unfolding strip
decimal_from_fraction rounded v =
    let (odd, twos) = strip 2 v.denominator in
    let (rest, fives) = strip 5 odd in
    if rest == 1 then written_out (expansion v.numerator twos fives) else rounded v
