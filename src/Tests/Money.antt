-- ===== src/Tests/Money.antt =====
-- Money values, decimals and quotes at concrete inputs.
use liqvera.Prelude.{ℕ, ◌-◌, ◌+◌, ◌*◌, ◌≤◌, ◌<◌, ◌≡◌, refl, ok, arith}
use liqvera.Prelude.Int.{pos, ◌*ℤ◌, pos-*ℤ-pos}
use liqvera.Python.{Str, Unicode, IsUnicode, codes, any, str_eq}
use liqvera.Exact.{ExactDecimal, parse, to_text, mul, add, sub, scale}
use liqvera.Exact.Range.{IsInt64, parse-IsInt64}
use liqvera.Exact.RoundTrip.{parse-to_text}
use liqvera.Decimal.{Decimal, from_decimal}
use liqvera.Decimal.Exact.{from_decimal_exact}
use liqvera.Amm.{amm_amount_out, amm_amount_in}
use liqvera.Amm.Theorems.{
  amm_amount_out-invariant, amm_amount_in-minimal, amm_amount_in-amm_amount_out,
}
use liqvera.Tests.{ascii, ascii-IsUnicode, amount, fits}

-- 12.5 and 0.00000003
abbrev twelve : ExactDecimal
twelve = amount (pos 1_250_000_000)

abbrev tiny : ExactDecimal
tiny = amount (pos 3)

twelve-parsed : parse ascii (codes "12.5") ≡ ok twelve
unfolding parse liqvera.Python.str_eq liqvera.Python.strip liqvera.Exact.parse_parts
    liqvera.Python.split_on liqvera.Python.isdigit liqvera.Python.int_text liqvera.Python.zeros
    liqvera.Exact.make
twelve-parsed = refl

parse-IsInt64_example : IsInt64 (pos 1_250_000_000)
parse-IsInt64_example = parse-IsInt64 ascii (codes "12.5") {e = twelve} twelve-parsed

parse-to_text_example : parse ascii (to_text twelve) ≡ ok twelve
parse-to_text_example =
    parse-to_text ascii ascii-IsUnicode twelve (fits 1_250_000_000 (omega arith))

twelve-times-tiny : mul twelve tiny ≡ ok (amount (pos 37))
unfolding mul liqvera.Exact.make liqvera.Exact.floor_div ◌*ℤ◌
twelve-times-tiny = refl

-- Decimal("1.25")
abbrev five_quarters : Decimal
five_quarters = record { coefficient = pos 125; places = 2 }

from_decimal_exact_example :
    from_decimal ascii five_quarters ≡ ok (amount (pos 125 *ℤ pos 1_000_000))
from_decimal_exact_example =
    from_decimal_exact ascii ascii-IsUnicode (pos 125) 2 (omega arith)
      (rw (pos-*ℤ-pos 125 1_000_000) (fits 125_000_000 (omega arith)))

-- A pool of 1000 and 2000 with a fee of 30 basis points.
hundred-paid : amm_amount_out (pos 100) (pos 1000) (pos 2000) (pos 30) ≡ ok 181
unfolding amm_amount_out liqvera.Amm.amm_inputs liqvera.Amm.checked_quote liqvera.Amm.net_input
hundred-paid = refl

hundred-asked : amm_amount_in (pos 181) (pos 1000) (pos 2000) (pos 30) ≡ ok 100
unfolding amm_amount_in liqvera.Amm.amm_inputs liqvera.Amm.checked_inverse amm_amount_out
    liqvera.Amm.inverse_amount liqvera.Amm.required_net liqvera.Amm.checked_quote
    liqvera.Amm.net_input
hundred-asked = refl

amm_amount_out-invariant_example : (181 < 2000) × (1000 * 2000 ≤ (1000 + 100) * (2000 - 181))
amm_amount_out-invariant_example =
    amm_amount_out-invariant (pos 100) (pos 1000) (pos 2000) (pos 30) hundred-paid

amm_amount_in-minimal_example : 100 ≤ 100
amm_amount_in-minimal_example =
    amm_amount_in-minimal (pos 181) (pos 1000) (pos 2000) (pos 30) {a = 100} {b = 100} {out = 181}
      hundred-asked hundred-paid (omega arith)

amm_amount_in-amm_amount_out_example :
    (b : ℕ) × (amm_amount_in (pos 181) (pos 1000) (pos 2000) (pos 30) ≡ ok b) × (b ≤ 100)
amm_amount_in-amm_amount_out_example =
    amm_amount_in-amm_amount_out 100 1000 2000 30 {out = 181} hundred-paid
