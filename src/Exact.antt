-- ===== src/Exact.antt =====
-- `ExactDecimal` of packages/contracts/src/liqvera_contracts/exact.py: a money value held as an
-- integer count of 1e-8, within a signed 64-bit range.
pub mod Range
pub mod Arithmetic
pub mod RoundTrip
pub mod Fraction
use liqvera.Prelude.{
  ℕ, suc, ◌+◌, ◌-◌, ◌*◌, ◌/◌, ◌%◌, ◌^◌, Bool, true, false, not, ◌&&◌, ◌||◌, List, [], ◌∷◌, ◌++◌,
  Option, none, some, ltb, leb, ◌==◌, if◌then◌else◌, length, Result, ok, err, ◌>>=◌, ◌>>◌, raise_if,
}
use liqvera.Prelude.Int.{
  ℤ, pos, negsuc, abs, sub_ℕ, ltb_ℤ, leb_ℤ, eqb_ℤ, ◌+ℤ◌, ◌-ℤ◌, ◌*ℤ◌, pos_part, neg_part,
}
use liqvera.Python.{
  Str, Unicode, is_empty, any, str_eq, strip, split_on, isdigit, int_text, rstrip_zeros, str_nat,
  zeros, zero_padded,
}

-- The exceptions. All of them but `value_error` are ExactError, and all are ValueError.
pub data Error : Type 0 where
  exact_error precision_error overflow_error division_error value_error : Error

-- ExactDecimal.DECIMALS and ExactDecimal.SCALE
abbrev pub decimals : ℕ
decimals = 8

abbrev pub scale : ℕ
scale = 100_000_000

-- -_MIN_SCALED and _MAX_SCALED
abbrev pub min_magnitude : ℕ
min_magnitude = 9_223_372_036_854_775_808

abbrev pub max_scaled : ℕ
max_scaled = 9_223_372_036_854_775_807

pub record ExactDecimal : Type 0 where
  pub scaled : ℤ

-- `__init__`
unfoldable pub make : ℤ → Result Error ExactDecimal
make scaled =
    if ltb_ℤ scaled (sub_ℕ 0 min_magnitude) || ltb_ℤ (pos max_scaled) scaled
    then err overflow_error
    else ok (record { scaled = scaled })

-- `sign` and `text` of `parse`: true for a minus sign
unfoldable pub take_sign : Str → Bool × Str
take_sign [] = (false, [])
take_sign (c ∷ s) =
    if c == b'-' then (true, s) else if c == b'+' then (false, s) else (false, c ∷ s)

abbrev pub is_marker : ℕ → Bool
is_marker c = c == b'e' || c == b'E' || c == b'n' || c == b'N'

-- `sign * whole`
abbrev pub signed : Bool → ℕ → ℤ
signed true n = sub_ℕ 0 n
signed false n = pos n

-- `int(...)`
abbrev pub int_or_raise : Option ℕ → Result Error ℕ
int_or_raise none = err value_error
int_or_raise (some n) = ok n

-- The tests on `parts` and the value, by the number of parts.
unfoldable pub parse_parts : Unicode → Bool → List Str → Result Error ExactDecimal
parse_parts u negative (whole ∷ []) = do
  raise_if (is_empty whole) exact_error
  raise_if (not (isdigit u whole)) exact_error
  w ← int_or_raise (int_text u whole)
  make (signed negative (w * scale))
parse_parts u negative (whole ∷ fraction ∷ []) = do
  raise_if (is_empty whole) exact_error
  raise_if (is_empty fraction || not (isdigit u fraction)) exact_error
  raise_if (not (isdigit u whole) || not (isdigit u fraction)) exact_error
  raise_if (ltb decimals (length fraction)) precision_error
  w ← int_or_raise (int_text u whole)
  f ← int_or_raise (int_text u (fraction ++ zeros (decimals - length fraction)))
  make (signed negative (w * scale + f))
parse_parts u negative _ = err exact_error

unfoldable pub parse : Unicode → Str → Result Error ExactDecimal
unfolding take_sign
parse u raw = do
  raise_if (is_empty raw || not (str_eq (strip u raw) raw)) exact_error
  let (negative, text) = take_sign raw
  raise_if (is_empty text || any is_marker text) exact_error
  parse_parts u negative (split_on b'.' text)

-- The digits of `__str__`, behind the sign.
unfoldable pub magnitude_text : ℕ → Str
magnitude_text m =
    if m % scale == 0
    then str_nat (m / scale)
    else str_nat (m / scale) ++ (b'.' ∷ rstrip_zeros (zero_padded decimals (m % scale)))

-- `__str__`
unfoldable pub to_text : ExactDecimal → Str
to_text e =
    if ltb_ℤ e.scaled (pos 0)
    then b'-' ∷ magnitude_text (abs e.scaled)
    else magnitude_text (abs e.scaled)

-- `__eq__`, `__lt__`, `__le__` and `is_zero`
abbrev pub eq : ExactDecimal → ExactDecimal → Bool
eq x y = eqb_ℤ x.scaled y.scaled

abbrev pub lt : ExactDecimal → ExactDecimal → Bool
lt x y = ltb_ℤ x.scaled y.scaled

abbrev pub le : ExactDecimal → ExactDecimal → Bool
le x y = leb_ℤ x.scaled y.scaled

abbrev pub is_zero : ExactDecimal → Bool
is_zero x = eqb_ℤ x.scaled (pos 0)

unfoldable pub add : ExactDecimal → ExactDecimal → Result Error ExactDecimal
add x y = make (x.scaled +ℤ y.scaled)

unfoldable pub sub : ExactDecimal → ExactDecimal → Result Error ExactDecimal
sub x y = make (x.scaled -ℤ y.scaled)

-- Python's `//`, which rounds towards minus infinity, for a divisor that is not zero.
unfoldable pub floor_div : ℤ → ℤ → ℤ
floor_div (pos a) (pos b) = pos (a / b)
floor_div (negsuc a) (pos b) = negsuc (a / b)
floor_div (negsuc a) (negsuc b) = pos (suc a / suc b)
floor_div (pos a) (negsuc b) = sub_ℕ 0 ((a + b) / suc b)

unfoldable pub mul : ExactDecimal → ExactDecimal → Result Error ExactDecimal
mul x y = make (floor_div (x.scaled *ℤ y.scaled) (pos scale))

unfoldable pub div : ExactDecimal → ExactDecimal → Result Error ExactDecimal
div x y =
    if eqb_ℤ y.scaled (pos 0)
    then err division_error
    else make (floor_div (x.scaled *ℤ pos scale) y.scaled)
