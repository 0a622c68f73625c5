-- ===== src/Provenance.antt =====
-- The reviewed market mappings of packages/contracts/src/liqvera_contracts/provenance.py.
pub mod Reviewed
pub mod Pairs
pub mod Current
pub mod Covering
pub mod Costs
pub mod Priced
use liqvera.Prelude.{
  ℕ, suc, Option, none, some, Bool, true, false, not, ◌&&◌, List, [], ◌∷◌, all, leb, ltb, ◌==◌,
  if◌then◌else◌, Result, ok, err, ◌>>=◌, ◌>>◌, raise_if,
}
use liqvera.Prelude.Int.{ℤ, pos, negsuc, leb_ℤ}
use liqvera.Python.{Str, Raised, type_error, value_error, is_empty, is_sha256}
use liqvera.Decimal.{Decimal, Number, finite, le, nought}
use liqvera.Json.{Json, null, integer}
use liqvera.Market.{InstrumentIdentity}

pub data MappingDecision : Type 0 where
  approved rejected : MappingDecision

-- The timestamps and the market index are not negative: `__post_init__` checks it.
pub record MarketMappingEvidence : Type 0 where
  pub mapping_id : Str
  pub mapping_version : Str
  pub decision : MappingDecision
  pub venue : Str
  pub symbol : Str
  pub identity : InstrumentIdentity
  pub evidence_sha256 : Str
  pub evidence_reference : Str
  pub valid_from_ms : ℕ
  pub valid_until_ms : Option ℕ
  pub reviewed_contract_multiplier : Decimal
  pub displayed_size_unit : Str
  pub quantity_step : Decimal
  pub price_tick : Option Decimal
  pub price_decimals : Option ℕ
  pub max_price_significant_digits : Option ℕ
  pub min_quantity : Option Decimal
  pub min_notional : Decimal
  pub lighter_market_index : Option ℕ

-- The tests that the analyzer makes of a mapping wherever it looks for one.
abbrev pub is_approved : MappingDecision → Bool
is_approved approved = true
is_approved rejected = false

-- The tests on the validity interval, which includes both ends.
unfoldable pub is_current : MarketMappingEvidence → ℤ → Bool
is_current m t =
    leb_ℤ (pos m.valid_from_ms) t
    && elim m.valid_until_ms [ none ↦ true | some v ↦ leb_ℤ t (pos v) ]

-- The arguments of `MarketMappingEvidence`. The two counts are whatever the caller read.
pub record MappingFields : Type 0 where
  pub mapping_id : Str
  pub mapping_version : Str
  pub decision : MappingDecision
  pub venue : Str
  pub symbol : Str
  pub identity : InstrumentIdentity
  pub evidence_sha256 : Str
  pub evidence_reference : Str
  pub valid_from_ms : ℤ
  pub valid_until_ms : Option ℤ
  pub reviewed_contract_multiplier : Number
  pub displayed_size_unit : Str
  pub quantity_step : Number
  pub price_tick : Option Number
  pub price_decimals : Json
  pub max_price_significant_digits : Json
  pub min_quantity : Option Number
  pub min_notional : Number
  pub lighter_market_index : Option ℤ

abbrev pub is_printable : ℕ → Bool
is_printable c = leb 33 c && leb c 126 && not (c == b'\\')

-- `_nonempty_ascii`, and the test of `_require_printable_ascii`
unfoldable pub nonempty_ascii : Str → Bool
nonempty_ascii s = not (is_empty s) && all is_printable s

-- `_require_timestamp`
abbrev pub require_timestamp : ℤ → Result Raised ℕ
require_timestamp (pos n) = ok n
require_timestamp (negsuc n) = err type_error

-- `_require_positive_decimal`
unfoldable pub require_positive_decimal : Number → Result Raised Decimal
require_positive_decimal (finite d) = if le d nought then err value_error else ok d
require_positive_decimal _ = err value_error

-- `_require_optional_positive_decimal`
unfoldable pub require_optional_positive_decimal : Option Number → Result Raised (Option Decimal)
require_optional_positive_decimal none = ok none
require_optional_positive_decimal (some x) = do d ← require_positive_decimal x; ok (some d)

-- `_require_optional_nonnegative_int`
unfoldable pub require_optional_nonnegative_int : Json → Result Raised (Option ℕ)
require_optional_nonnegative_int null = ok none
require_optional_nonnegative_int (integer (pos n)) = ok (some n)
require_optional_nonnegative_int _ = err type_error

-- `_require_optional_positive_int`
unfoldable pub require_optional_positive_int : Json → Result Raised (Option ℕ)
require_optional_positive_int null = ok none
require_optional_positive_int (integer (pos (suc n))) = ok (some (suc n))
require_optional_positive_int _ = err type_error

-- The tests on `valid_until_ms`.
unfoldable pub require_until : ℕ → Option ℤ → Result Raised (Option ℕ)
require_until from none = ok none
require_until from (some z) = do
  until ← require_timestamp z
  raise_if (ltb until from) value_error
  ok (some until)

-- The tests on `lighter_market_index`.
unfoldable pub require_market_index : Option ℤ → Result Raised (Option ℕ)
require_market_index none = ok none
require_market_index (some (pos n)) = ok (some n)
require_market_index (some (negsuc n)) = err value_error

abbrev pub is_missing {ℓ} : {A : Type ℓ} → Option A → Bool
is_missing none = true
is_missing (some a) = false

-- The texts that `__post_init__` tests first.
abbrev pub texts_of : MappingFields → List Str
texts_of f =
    f.mapping_id ∷ f.mapping_version ∷ f.venue ∷ f.symbol ∷ f.evidence_reference
    ∷ f.displayed_size_unit ∷ []

-- `MarketMappingEvidence(...)`
unfoldable pub mapping_evidence : MappingFields → Result Raised MarketMappingEvidence
mapping_evidence f = do
  raise_if (not (all nonempty_ascii (texts_of f))) value_error
  raise_if (not (is_sha256 f.evidence_sha256)) value_error
  from ← require_timestamp f.valid_from_ms
  until ← require_until from f.valid_until_ms
  multiplier ← require_positive_decimal f.reviewed_contract_multiplier
  step ← require_positive_decimal f.quantity_step
  notional ← require_positive_decimal f.min_notional
  tick ← require_optional_positive_decimal f.price_tick
  quantity ← require_optional_positive_decimal f.min_quantity
  places ← require_optional_nonnegative_int f.price_decimals
  digits ← require_optional_positive_int f.max_price_significant_digits
  raise_if (is_missing tick && is_missing places && is_missing digits) value_error
  index ← require_market_index f.lighter_market_index
  ok (record {
    mapping_id = f.mapping_id;
    mapping_version = f.mapping_version;
    decision = f.decision;
    venue = f.venue;
    symbol = f.symbol;
    identity = f.identity;
    evidence_sha256 = f.evidence_sha256;
    evidence_reference = f.evidence_reference;
    valid_from_ms = from;
    valid_until_ms = until;
    reviewed_contract_multiplier = multiplier;
    displayed_size_unit = f.displayed_size_unit;
    quantity_step = step;
    price_tick = tick;
    price_decimals = places;
    max_price_significant_digits = digits;
    min_quantity = quantity;
    min_notional = notional;
    lighter_market_index = index;
  })
