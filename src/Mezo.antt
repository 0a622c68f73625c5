-- ===== src/Mezo.antt =====
-- What the observations of Mezo's contracts share, packages/public-capture/src/
-- liqvera_public_capture/public_adapters/mezo_dex.py and mezo_troves.py: words of 32 bytes in
-- hexadecimal, addresses, and the results of the calls at one block. Whatever is raised while an
-- observation is verified becomes one ValueError, so that every failure here is `value_error`.
pub mod Dex
pub mod Words
pub mod Quoted
pub mod Verified
pub mod Troves
pub mod Queue
pub mod Walked
pub mod Redeemed
pub mod Reported
pub mod TroveCapture
use liqvera.Prelude.{
  ℕ, zero, suc, ◌+◌, ◌-◌, ◌*◌, ◌/◌, ◌%◌, ◌^◌, Bool, true, false, not, ◌&&◌, ◌||◌, List, [], ◌∷◌,
  ◌++◌, Option, none, some, Result, ok, err, ◌>>=◌, ◌>>◌, raise_if, leb, ltb, ◌==◌, if◌then◌else◌,
  length, all,
}
use liqvera.Prelude.Int.{ℤ}
use liqvera.Python.{Str, Raised, value_error, codes, str_eq, drop, zeros, is_hex, starts_with}
use liqvera.Json.{Json, text, Items, Members, find, get, is_text, as_text, as_object, as_array}
use liqvera.Json.Builtins.{value_or_raise}

-- `str.lower`, and `int(text, 16)`, whose text may have a sign, a prefix and underscores
pub record Texts : Type 0 where
  pub lower : Str → Str
  pub int_16 : Str → Option ℤ

-- `_require`
abbrev pub require : Bool → Result Raised (Unit {0})
require b = raise_if (not b) value_error

abbrev pub given {ℓ} : {A : Type ℓ} → Option A → Result Raised A
given o = value_or_raise value_error o

-- `value[key]`
unfoldable pub at : Str → Json → Result Raised Json
at key raw = do fields ← given (as_object raw); given (find key fields)

-- `value[key]` where only a text passes what follows
unfoldable pub text_at : Str → Json → Result Raised Str
unfolding at
text_at key raw = do v ← at key raw; given (as_text v)

-- a character of "[0-9a-fA-F]"
abbrev pub is_hex_digit : ℕ → Bool
is_hex_digit c = is_hex c || leb b'A' c && leb c b'F'

-- The digit that the character spells
unfoldable pub hex_digit : ℕ → ℕ
hex_digit c = if leb c b'9' then c - 48 else if leb c b'F' then c - 55 else c - 87

-- The number that the digits spell behind `n`: `int(..., 16)` of hexadecimal digits
unfoldable pub hex_value : ℕ → Str → ℕ
unfolding hex_digit
hex_value n [] = n
hex_value n (c ∷ s) = hex_value (n * 16 + hex_digit c) s

unfoldable pub take : ℕ → Str → Str
take zero s = []
take (suc n) [] = []
take (suc n) (c ∷ s) = c ∷ take n s

-- `[int(raw[i:i + 64], 16) for i in ...]`
unfoldable pub chunks : ℕ → Str → List ℕ
unfolding drop take
chunks zero s = []
chunks (suc n) s = hex_value 0 (take 64 s) ∷ chunks n (drop 64 s)

-- `_words`
unfoldable pub words_of : Json → ℕ → Result Raised (List ℕ)
words_of raw size = do
  s ← given (as_text raw)
  require (starts_with (codes "0x") s && ltb 2 (length s) && all is_hex_digit (drop 2 s))
  require (length s == 2 + 64 * size)
  ok (chunks size (drop 2 s))

-- a digit in lower case
abbrev pub hex_char : ℕ → ℕ
hex_char d = if ltb d 10 then 48 + d else 87 + d

-- The last `width` digits of a number
unfoldable pub hex_digits : ℕ → ℕ → Str
hex_digits zero n = []
hex_digits (suc width) n = hex_digits width (n / 16) ++ hex_char (n % 16) ∷ []

-- `f"{n:064x}"` of a number below 2**256
abbrev pub word : ℕ → Str
word n = hex_digits 64 n

-- `_address_word`
unfoldable pub address_word : Texts → Str → Str
unfolding drop zeros
address_word t address = let s = t.lower (drop 2 address) in zeros (64 - length s) ++ s

-- `[1-9a-f][0-9a-f]*`
abbrev pub is_positive_hex : Str → Bool
is_positive_hex [] = false
is_positive_hex (c ∷ s) = is_hex c && not (c == b'0') && all is_hex s

-- `0x[1-9a-f][0-9a-f]*`
unfoldable pub is_block : Str → Bool
unfolding drop
is_block s = starts_with (codes "0x") s && is_positive_hex (drop 2 s)

-- `0x[0-9a-fA-F]{64}`
unfoldable pub is_hash : Str → Bool
unfolding drop
is_hash s = starts_with (codes "0x") s && length s == 66 && all is_hex_digit (drop 2 s)

-- The calls of an observation by target and data
abbrev pub Calls : Type 0 → Type 0
Calls A = List ((Str × Str) × A)

unfoldable pub result_at : {A : Type 0} → Str → Str → Calls A → Option A
result_at to data' [] = none
result_at to data' (((t, d), a) ∷ calls) =
    let later = result_at to data' calls in if str_eq t to && str_eq d data' then some a else later
