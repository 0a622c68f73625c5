-- ===== src/Capture/Fields.antt =====
-- How public_adapters/lighter.py reads the fields of a message. A message is the JSON that the
-- transport parsed.
use liqvera.Prelude.{Option, none, some, Result, ok, err, ◌>>=◌, ◌>>◌, raise_if}
use liqvera.Prelude.Int.{ℤ}
use liqvera.Python.{Str, Raised, value_error, Unicode, is_empty, strip}
use liqvera.Decimal.{Decimal, Number, finite}
use liqvera.Json.{Json, Items, Members, as_text, as_integer, as_array, as_object}
use liqvera.Json.Builtins.{Builtins, value_or_raise}

-- `_object`
abbrev pub object_of : Json → Result Raised Members
object_of raw = value_or_raise value_error (as_object raw)

-- `_array`
abbrev pub array_of : Json → Result Raised Items
array_of raw = value_or_raise value_error (as_array raw)

-- `_string`
unfoldable pub string_of : Unicode → Json → Result Raised Str
string_of u raw = do
  s ← value_or_raise value_error (as_text raw)
  raise_if (is_empty (strip u s)) value_error
  ok s

-- `_integer`
abbrev pub integer_of : Json → Result Raised ℤ
integer_of raw = value_or_raise value_error (as_integer raw)

-- The tests of `_decimal` on what `Decimal` returned.
abbrev pub finite_of : Option Number → Result Raised Decimal
finite_of none = err value_error
finite_of (some (finite d)) = ok d
finite_of (some _) = err value_error

-- `_decimal`
unfoldable pub decimal_of : Builtins → Json → Result Raised Decimal
decimal_of b raw = do s ← value_or_raise value_error (as_text raw); finite_of (b.decimal_of_text s)
