-- ===== src/Tests/Fractions.antt =====
-- Expansions that end.
use liqvera.Prelude.{ℕ, ◌*◌, ◌^◌, ◌≡◌, ◌↔◌, refl, true, Result, ok, err, arith}
use liqvera.Prelude.Int.{pos, negsuc}
use liqvera.Python.{Raised, type_error}
use liqvera.Decimal.{Decimal}
use liqvera.Exact.Fraction.{Fraction, strip, is_terminating_fraction, decimal_from_fraction}
use liqvera.Exact.Fraction.Ends.{IsStripped, strip-IsStripped, is_terminating_fraction_iff}

-- -3/40
abbrev three_fortieths : Fraction
three_fortieths = record { numerator = negsuc 2; denominator = 40 }

abbrev unrounded : Fraction → Result Raised Decimal
unrounded v = err type_error

strip-IsStripped_example : IsStripped 2 40 0 (strip 2 40)
strip-IsStripped_example = strip-IsStripped 2 40 (omega arith) (omega arith)

is_terminating_fraction_iff_example :
    (is_terminating_fraction three_fortieths ≡ true)
    ↔ ((twos : ℕ) × (fives : ℕ) × (40 ≡ 2 ^ twos * 5 ^ fives))
is_terminating_fraction_iff_example = is_terminating_fraction_iff three_fortieths (omega arith)

written :
    decimal_from_fraction unrounded three_fortieths
    ≡ ok (record { coefficient = negsuc 74; places = 3 })
unfolding decimal_from_fraction liqvera.Exact.Fraction.written_out
    liqvera.Exact.Fraction.digits_limit liqvera.Prelude.Int.◌*ℤ◌
written = refl
