-- ===== src/Vwap.antt =====
-- The depth sweep of packages/readonly-analyzer/src/liqvera_readonly_analyzer/vwap.py. Each Fraction of
-- the loop has the denominator 1e8 (quantities and prices) or 1e16 (the notional), and is held by its
-- numerator over that.
pub mod Fills
pub mod Sweep
pub mod Optimal
pub mod Theorems
use liqvera.Prelude.{
  ℕ, suc, ◌*◌, ◌+◌, Bool, not, ◌||◌, List, [], ◌∷◌, Option, none, some, Result, ok, err, ◌>>=◌,
  ◌>>◌, raise_if, if◌then◌else◌,
}
use liqvera.Prelude.Int.{ℤ, pos, abs, ◌+ℤ◌, ◌-ℤ◌, ◌*ℤ◌, leb_ℤ, eqb_ℤ}
use liqvera.Python.{Str, Unicode, codes, str_eq}
use liqvera.Exact
use liqvera.Exact.{ExactDecimal, scale}
use liqvera.Decimal.{Decimal, eq, from_decimal}
use liqvera.Market.{BookLevel}
use liqvera.Provenance.{MarketMappingEvidence}
use liqvera.Reconstruction.Book.{ReconstructedBook}

pub data Side : Type 0 where
  buy sell : Side

-- DepthRejected, VwapError, and the ValueError of `int` that no handler catches.
pub data Error : Type 0 where
  depth_rejected vwap_error value_error : Error

-- A fraction with the given terms, which need not be the lowest.
pub record Fraction : Type 0 where
  pub numerator : ℤ
  pub denominator : ℕ

pub record ExecutableFill : Type 0 where
  pub side : Side
  pub envelope_index : ℕ
  pub payload_sha256 : Str
  pub epoch_id : ℕ
  pub requested_quantity : Fraction
  pub filled_quantity : Fraction
  pub notional_quote : Fraction
  pub vwap : Fraction
  pub worst_price : Fraction
  pub consumed_levels : ℕ

-- The variables of the loop: counts of 1e-8, and of 1e-16 for the notional.
pub record Loop : Type 0 where
  pub remaining : ℤ
  pub notional : ℤ
  pub consumed : ℕ
  pub worst : Option ℤ

-- `try ... except (ExactError, TypeError)`
unfoldable pub admissible : Result Exact.Error ExactDecimal → Result Error ExactDecimal
admissible (ok e) = ok e
admissible (err Exact.value_error) = err value_error
admissible (err _) = err vwap_error

abbrev pub taken : ℤ → ℤ → ℤ
taken remaining available = if leb_ℤ remaining available then remaining else available

-- What one level does to the loop's variables when something is taken from it.
abbrev pub take : Loop → ℤ → ℤ → Loop
take s price t = record {
  remaining = s.remaining -ℤ t;
  notional = s.notional +ℤ price *ℤ t;
  consumed = suc s.consumed;
  worst = some price;
}

-- The `for` loop.
unfoldable pub sweep : Unicode → List BookLevel → Loop → Result Error Loop
sweep u [] s = ok s
sweep u (level ∷ levels) s = do
  price ← admissible (from_decimal u level.price)
  size ← admissible (from_decimal u level.quantity)
  let t = taken s.remaining size.scaled
  let skip = sweep u levels s
  let s' = take s price.scaled t
  let on = sweep u levels s'
  if eqb_ℤ t (pos 0) then skip else if eqb_ℤ s'.remaining (pos 0) then ok s' else on

-- `_require_coin_unit_identity`
unfoldable pub require_coin_unit_identity : Option MarketMappingEvidence → Result Error (Unit {0})
require_coin_unit_identity none = err vwap_error
require_coin_unit_identity (some m) = do
  raise_if (not (str_eq m.displayed_size_unit (codes "coin"))) vwap_error
  raise_if (not (eq m.reviewed_contract_multiplier (record { coefficient = pos 1; places = 0 })))
      vwap_error

abbrev pub levels_of : ReconstructedBook → Side → List BookLevel
levels_of book buy = book.snapshot.asks
levels_of book sell = book.snapshot.bids

-- The fill, from the variables after the loop.
unfoldable pub fill_of : ReconstructedBook → Side → ℤ → Loop → Result Error ExecutableFill
fill_of book side quantity s = do
  raise_if (not (eqb_ℤ s.remaining (pos 0))) depth_rejected
  elim s.worst [
    | none ↦ err vwap_error
    | some worst ↦ ok (record {
      side = side;
      envelope_index = book.envelope_index;
      payload_sha256 = book.payload_sha256;
      epoch_id = book.epoch_id;
      requested_quantity = record { numerator = quantity; denominator = scale };
      filled_quantity = record { numerator = quantity; denominator = scale };
      notional_quote = record { numerator = s.notional; denominator = scale * scale };
      vwap = record { numerator = s.notional; denominator = scale * abs quantity };
      worst_price = record { numerator = worst; denominator = scale };
      consumed_levels = s.consumed;
    })
  ]

unfoldable pub sweep_depth :
    Unicode → ReconstructedBook → Side → ExactDecimal → Result Error ExecutableFill
sweep_depth u book side quantity = do
  raise_if (leb_ℤ quantity.scaled (pos 0)) vwap_error
  require_coin_unit_identity book.mapping
  s ←
      sweep u (levels_of book side)
        (record { remaining = quantity.scaled; notional = pos 0; consumed = 0; worst = none })
  fill_of book side quantity.scaled s
