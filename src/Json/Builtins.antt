-- ===== src/Json/Builtins.antt =====
-- The built-in functions that the source calls on what `json.loads` returned.
use liqvera.Prelude.{true, false, Option, none, some, Result, ok, err}
use liqvera.Prelude.Int.{ℤ, pos}
use liqvera.Python.{Str, Raised, type_error, value_error, key_error}
use liqvera.Decimal.{Number}
use liqvera.Json.{Json, boolean, integer, real, text, object, find}

-- What the built-ins make of texts and floats: `repr`, `int` and `decimal.Decimal`.
pub record Builtins : Type 0 where
  pub repr : Json → Str
  pub int_of_text : Str → Option ℤ
  pub int_of_real : Str → Result Raised ℤ
  pub decimal_of_text : Str → Option Number

-- `str(value)`
abbrev pub to_text : Builtins → Json → Str
to_text p (text s) = s
to_text p j = p.repr j

abbrev pub value_or_raise {ℓ} : {A : Type ℓ} → Raised → Option A → Result Raised A
value_or_raise e none = err e
value_or_raise e (some a) = ok a

-- `int(value)`
abbrev pub to_int : Builtins → Json → Result Raised ℤ
to_int p (integer z) = ok z
to_int p (boolean true) = ok (pos 1)
to_int p (boolean false) = ok (pos 0)
to_int p (real s) = p.int_of_real s
to_int p (text s) = value_or_raise value_error (p.int_of_text s)
to_int p _ = err type_error

-- `value[key]`
abbrev pub subscript : Str → Json → Result Raised Json
subscript key (object ms) = value_or_raise key_error (find key ms)
subscript key _ = err type_error
