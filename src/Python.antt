-- ===== src/Python.antt =====
-- What the modelled code uses of Python's texts. A `str` is the list of its code points. The Unicode
-- tables behind `isdigit`, `int`, `strip` and `casefold` are a parameter, with the ASCII part of
-- them as laws.
pub mod Digits
pub mod Padding
use liqvera.Prelude.{
  ℕ, zero, suc, ◌+◌, ◌-◌, ◌*◌, ◌≤◌, ◌<◌, ◌≡◌, refl, ◌↔◌, Bool, true, false, not, ◌&&◌, ◌||◌, List,
  [], ◌∷◌, ◌++◌, map, Option, none, some, reverse, String, arith, leb, ltb, ◌==◌, if◌then◌else◌,
  length, all, ◌/◌, ◌%◌,
}
use Prim.Native.Char.{code}

abbrev pub Str : Type 0
Str = List ℕ

-- The code points of a literal.
abbrev pub codes : String → Str
codes String.[] = []
codes (String.◌∷◌ c s) = code c ∷ codes s

pub record Unicode : Type 0 where
  pub is_digit : ℕ → Bool
  pub decimal : ℕ → Option ℕ
  pub is_space : ℕ → Bool
  pub casefold : Str → Str

-- The built-in exceptions that the handlers tell apart. `decode_error` stands for the two subclasses
-- of ValueError that decoding raises, UnicodeDecodeError and JSONDecodeError.
pub data Raised : Type 0 where
  type_error value_error decode_error key_error overflow_error invalid_operation os_error : Raised
  recursion_error : Raised

-- Unicode agrees with ASCII on the characters of ASCII.
pub record IsUnicode (u : Unicode) : Type 0 where
  pub digit_ascii : (d : ℕ) → d < 10 → u.is_digit (48 + d) ≡ true
  pub decimal_ascii : (d : ℕ) → d < 10 → u.decimal (48 + d) ≡ some d
  pub space_ascii : (c : ℕ) → 33 ≤ c → c < 127 → u.is_space c ≡ false

abbrev pub is_empty {ℓ} : {A : Type ℓ} → List A → Bool
is_empty [] = true
is_empty (x ∷ xs) = false

-- `any(test(x) for x in xs)`
abbrev pub any {ℓ} : {A : Type ℓ} → (A → Bool) → List A → Bool
any test [] = false
any test (x ∷ xs) = test x || any test xs

-- `==` on texts
unfoldable pub str_eq : Str → Str → Bool
str_eq [] [] = true
str_eq (c ∷ s) (d ∷ t) = c == d && str_eq s t
str_eq _ _ = false

-- `startswith`
unfoldable pub starts_with : Str → Str → Bool
starts_with [] s = true
starts_with (c ∷ p) [] = false
starts_with (c ∷ p) (d ∷ s) = c == d && starts_with p s

-- a character of "0123456789abcdef"
abbrev pub is_hex : ℕ → Bool
is_hex c = leb b'0' c && leb c b'9' || leb b'a' c && leb c b'f'

-- the test of each `_require_sha256` and `_is_sha256`
unfoldable pub is_sha256 : Str → Bool
is_sha256 s = length s == 64 && all is_hex s

-- `s[n:]`
unfoldable pub drop : ℕ → Str → Str
drop zero s = s
drop (suc n) [] = []
drop (suc n) (c ∷ s) = drop n s

unfoldable pub cons_head : ℕ → List Str → List Str
cons_head c [] = (c ∷ []) ∷ []
cons_head c (p ∷ ps) = (c ∷ p) ∷ ps

-- `s.split(sep)` at one character
unfoldable pub split_on : ℕ → Str → List Str
unfolding cons_head
split_on sep [] = [] ∷ []
split_on sep (c ∷ s) = let rest = split_on sep s in if c == sep then [] ∷ rest else cons_head c rest

unfoldable pub drop_spaces : Unicode → Str → Str
drop_spaces u [] = []
drop_spaces u (c ∷ s) = let rest = drop_spaces u s in if u.is_space c then rest else c ∷ s

-- `s.strip()`
unfoldable pub strip : Unicode → Str → Str
unfolding drop_spaces
strip u s = reverse (drop_spaces u (reverse (drop_spaces u s)))

-- `s.isdigit()`
unfoldable pub isdigit : Unicode → Str → Bool
isdigit u s = not (is_empty s) && all u.is_digit s

-- Python refuses longer texts of digits.
abbrev pub max_str_digits : ℕ
max_str_digits = 4300

unfoldable pub scan_digits : Unicode → ℕ → Str → Option ℕ
scan_digits u n [] = some n
scan_digits u n (c ∷ s) = elim (u.decimal c) [ none ↦ none | some d ↦ scan_digits u (n * 10 + d) s ]

-- `int(s)` of a text that passed `isdigit`; `none` is the ValueError, for a digit such as '²' that
-- is not decimal, or for too many digits
unfoldable pub int_text : Unicode → Str → Option ℕ
unfolding scan_digits
int_text u s = if ltb max_str_digits (length s) then none else scan_digits u 0 s

-- `s.rstrip("0")`
unfoldable pub rstrip_zeros : Str → Str
rstrip_zeros [] = []
rstrip_zeros (c ∷ s) =
    let rest = rstrip_zeros s in if c == b'0' && is_empty rest then [] else c ∷ rest

-- The digits of a number, most significant first, with fuel above the number.
unfoldable pub str_fuel : ℕ → ℕ → Str
str_fuel zero n = []
str_fuel (suc f) n =
    let rest = str_fuel f (n / 10) in
    if n / 10 == 0 then (48 + n) ∷ [] else rest ++ (48 + n % 10) ∷ []

-- `str(n)` of an int that is not negative
unfoldable pub str_nat : ℕ → Str
unfolding str_fuel
str_nat n = str_fuel (suc n) n

unfoldable pub zeros : ℕ → Str
zeros zero = []
zeros (suc n) = b'0' ∷ zeros n

-- `f"{n:0{width}d}"`
unfoldable pub zero_padded : ℕ → ℕ → Str
unfolding zeros
zero_padded width n = let s = str_nat n in zeros (width - length s) ++ s

pub str_eq_iff : (s t : Str) → (str_eq s t ≡ true) ↔ (s ≡ t)
unfolding str_eq
str_eq_iff [] [] = (λ h. refl, λ h. refl)
str_eq_iff [] (d ∷ t) = (cc, cc)
str_eq_iff (c ∷ s) [] = (cc, cc)
str_eq_iff (c ∷ s) (d ∷ t) = let e = str_eq_iff s t in ground (arith, e)
