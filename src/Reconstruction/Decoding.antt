-- ===== src/Reconstruction/Decoding.antt =====
-- What the two decoders of packages/readonly-analyzer/src/liqvera_readonly_analyzer/reconstruction/
-- share. Each TypeError and ValueError leaves a decoder as a ReconstructionError.
use liqvera.Prelude.{ℕ, List, [], ◌∷◌, Option, none, some, Result, ok, err, ◌>>=◌}
use liqvera.Python.{Str, Raised, type_error, value_error, decode_error, Unicode}
use liqvera.Exact.{parse}
use liqvera.Decimal.{to_decimal}
use liqvera.Market.{BookLevel, book_level}
use liqvera.Reconstruction.Levels.{Delta}
use liqvera.Json.{Json, Items, no_items, item, get, as_text, as_array, as_object}
use liqvera.Reconstruction.Book.{Error, reconstruction_error, escaped}

-- `json.loads(payload.decode("utf-8"))`, with what either raises
abbrev pub Loads : Type 0
Loads = List ℕ → Result Raised Json

-- `except (UnicodeDecodeError, json.JSONDecodeError, TypeError, ValueError, ExactError)`
abbrev pub or_undecoded {ℓ} : {A : Type ℓ} → Result Raised A → Result Error A
or_undecoded (ok a) = ok a
or_undecoded (err type_error) = err reconstruction_error
or_undecoded (err value_error) = err reconstruction_error
or_undecoded (err decode_error) = err reconstruction_error
or_undecoded (err e) = err (escaped e)

-- What is missing, or of another type, is rejected.
abbrev pub require {ℓ} : {A : Type ℓ} → Option A → Result Error A
require none = err reconstruction_error
require (some a) = ok a

-- `except ValueError` around a call
abbrev pub or_reject {ℓ} : {E : Type 0} {A : Type ℓ} → Result E A → Result Error A
or_reject (ok a) = ok a
or_reject (err e) = err reconstruction_error

-- Price and size of a level, under the keys that the venue uses.
unfoldable pub price_and_size : Unicode → Str → Str → Json → Result Error Delta
price_and_size u price_key size_key raw = do
  fields ← require (as_object raw)
  price_raw ← require (as_text (get price_key fields))
  size_raw ← require (as_text (get size_key fields))
  price ← or_reject (parse u price_raw)
  size ← or_reject (parse u size_raw)
  ok (to_decimal price, to_decimal size)

-- `_book_levels`, behind the test on the array
unfoldable pub levels_of_items : Unicode → Str → Str → Items → Result Error (List BookLevel)
levels_of_items u price_key size_key no_items = ok []
levels_of_items u price_key size_key (item raw rest) = do
  read ← price_and_size u price_key size_key raw
  level ← or_reject (book_level read.0 read.1)
  levels ← levels_of_items u price_key size_key rest
  ok (level ∷ levels)

unfoldable pub book_levels : Unicode → Str → Str → Json → Result Error (List BookLevel)
book_levels u price_key size_key raw = do
  items ← require (as_array raw)
  levels_of_items u price_key size_key items
