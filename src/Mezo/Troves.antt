-- ===== src/Mezo/Troves.antt =====
-- The offline check of an observation of the Troves: `_verify` of packages/public-capture/src/
-- liqvera_public_capture/public_adapters/mezo_troves.py, an Action on the set of the calls that were
-- used. The dictionary `calls` holds the results.
use liqvera.Prelude.{
  ℕ, zero, suc, ◌+◌, ◌-◌, ◌*◌, ◌/◌, ◌^◌, Bool, true, false, not, ◌&&◌, ◌||◌, List, [], ◌∷◌, ◌++◌,
  Option, none, some, Result, ok, err, leb, ltb, ◌==◌, if◌then◌else◌, length, all,
}
use liqvera.Prelude
use liqvera.Prelude.Action.{Action, ◌>>=◌, ◌>>◌, return, call, modify}
use liqvera.Python.{Str, Raised, value_error, codes, zeros}
use liqvera.Json.{Json}
use liqvera.Mezo.{Texts, require, given, words_of, word, hex_digits, address_word, Calls, result_at}
use liqvera.Mezo.Dex.{one_word}

abbrev pub trove_manager : Str
trove_manager = codes "0xE47c80e8c23f6B4A1aE41c34837a0599D5D16bb0"

abbrev pub sorted_troves : Str
sorted_troves = codes "0x722E4D24FD6Ff8b0AC679450F3D91294607268fA"

abbrev pub price_feed : Str
price_feed = codes "0x86bCF0841622a5dAC14A313a15f96A95421b9366"

-- `ZERO`
abbrev pub nobody : Str
nobody = codes "0x" ++ zeros 40

abbrev pub unit : ℕ
unit = 10 ^ 18

abbrev pub queue_limit : ℕ
queue_limit = 500

-- `MAXIMUM`
abbrev pub maximum : ℕ
maximum = 2 ^ 256 - 1

-- `_icr`
unfoldable pub icr : ℕ → ℕ → ℕ → Result Raised ℕ
icr collateral debt price =
    if not (leb debt maximum)
    then err value_error
    else if debt == 0
    then ok maximum
    else if leb (collateral * price) maximum
    then ok (collateral * price / debt)
    else err value_error

-- What a trove holds
pub record Trove : Type 0 where
  pub collateral : ℕ
  pub principal : ℕ
  pub interest : ℕ
  pub status : ℕ
  pub ratio : ℕ

abbrev pub debt_of : Trove → ℕ
debt_of v = v.principal + v.interest

-- The keys of the calls that were used
abbrev pub Used : Type 0
Used = List (Str × Str)

abbrev pub Reading : Type 0 → Type 0
Reading A = Action Used Raised A

abbrev pub six_words : List ℕ → Result Raised (ℕ × ℕ × ℕ × ℕ × ℕ × ℕ)
six_words (a ∷ b ∷ c ∷ d ∷ e ∷ f ∷ []) = ok (a, b, c, d, e, f)
six_words _ = err value_error

-- What the tests of the walk make of the numbers
abbrev pub found_icr : ℕ → ℕ → ℕ → ℕ → Result Raised (Unit {0})
found_icr ratio collateral debt price =
    Prelude.◌>>=◌ (icr collateral debt price) (λ expected. require (ratio == expected))

module _ (t : Texts) (calls : Calls Json) where
  -- `words`
  unfoldable pub words : Str → Str → ℕ → Str → Reading (List ℕ)
  words to selector count args = do
    modify (λ used. (t.lower to, selector ++ args) ∷ used)
    raw ← call (given (result_at (t.lower to) (selector ++ args) calls))
    call (words_of raw count)

  -- `uint`
  unfoldable pub uint : Str → Str → Str → Reading ℕ
  uint to selector args = do found ← words to selector 1 args; call (one_word found)

  -- `address`
  unfoldable pub address : Str → Str → Str → Reading Str
  address to selector args = do
    value ← uint to selector args
    call (require (ltb value (2 ^ 160)))
    return (codes "0x" ++ hex_digits 40 value)

  -- `trove`, at a price and a gas compensation
  unfoldable pub trove : ℕ → ℕ → Str → Reading Trove
  trove price gas owner = do
    found ← words trove_manager (codes "0xb91af97c") 6 (address_word t owner)
    six ← call (six_words found)
    status ← uint trove_manager (codes "0x21e37801") (address_word t owner)
    ratio ← uint trove_manager (codes "0xd293c710") (address_word t owner ++ word price)
    call (require (leb status 4 && leb six.3 six.0 && leb six.4 six.1 && leb six.5 six.2))
    call (found_icr ratio six.0 (six.1 + six.2) price)
    call (require (not (status == 1) || leb gas (six.1 + six.2)))
    return (record {
      collateral = six.0;
      principal = six.1;
      interest = six.2;
      status = status;
      ratio = ratio;
    })
