-- ===== src/Decimal.antt =====
-- The finite `decimal.Decimal` of the source: an integer coefficient and a number of decimal places.
-- Comparisons are exact, by value. `from_decimal` is `ExactDecimal.from_decimal` of
-- packages/contracts/src/liqvera_contracts/exact.py.
pub mod Order
pub mod Exact
use liqvera.Prelude.{
  ℕ, suc, zero, ◌-◌, ◌/◌, ◌%◌, ◌^◌, Bool, List, ◌∷◌, ◌++◌, ◌==◌, if◌then◌else◌, Result,
}
use liqvera.Prelude.Int.{ℤ, pos, abs, ltb_ℤ, leb_ℤ, eqb_ℤ, ◌*ℤ◌}
use liqvera.Python.{Str, Unicode, str_nat, zero_padded}
use liqvera.Exact.{ExactDecimal, Error, parse}

-- `coefficient` times ten to the minus `places`.
pub record Decimal : Type 0 where
  pub coefficient : ℤ
  pub places : ℕ

-- What the constructor of `Decimal` returns: NaN and the infinities are values, too.
pub data Number : Type 0 where
  finite : Decimal → Number
  infinity minus_infinity nan : Number

-- `a < b`, `a <= b` and `a == b` on values, by cross multiplication.
unfoldable pub lt : Decimal → Decimal → Bool
lt a b = ltb_ℤ (a.coefficient *ℤ pos (10 ^ b.places)) (b.coefficient *ℤ pos (10 ^ a.places))

unfoldable pub le : Decimal → Decimal → Bool
le a b = leb_ℤ (a.coefficient *ℤ pos (10 ^ b.places)) (b.coefficient *ℤ pos (10 ^ a.places))

unfoldable pub eq : Decimal → Decimal → Bool
eq a b = eqb_ℤ (a.coefficient *ℤ pos (10 ^ b.places)) (b.coefficient *ℤ pos (10 ^ a.places))

-- Decimal("0")
abbrev pub nought : Decimal
nought = record { coefficient = pos 0; places = 0 }

-- The digits of `format(value, "f")`, behind the sign.
unfoldable pub fixed_magnitude : ℕ → ℕ → Str
fixed_magnitude m zero = str_nat m
fixed_magnitude m (suc k) =
    str_nat (m / 10 ^ suc k) ++ (b'.' ∷ zero_padded (suc k) (m % 10 ^ suc k))

-- `format(value, "f")`
unfoldable pub format_fixed : Decimal → Str
format_fixed d =
    let digits = fixed_magnitude (abs d.coefficient) d.places in
    if ltb_ℤ d.coefficient (pos 0) then b'-' ∷ digits else digits

-- `ExactDecimal.from_decimal` of a finite Decimal
unfoldable pub from_decimal : Unicode → Decimal → Result Error ExactDecimal
from_decimal u d = parse u (format_fixed d)

-- `Decimal(str(e))`; the zeros at the end that `str` drops change no value.
abbrev pub to_decimal : ExactDecimal → Decimal
to_decimal e = record { coefficient = e.scaled; places = 8 }
