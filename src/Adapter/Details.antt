-- ===== src/Adapter/Details.antt =====
-- The discovery of Lighter's markets: the pure part of `list_markets` in
-- packages/public-capture/src/liqvera_public_capture/public_adapters/lighter.py.
use liqvera.Prelude.{
  not, ◌||◌, [], Option, none, some, Result, ok, ◌>>=◌, ◌>>◌, raise_if, if◌then◌else◌,
}
use liqvera.Prelude.Int.{ℤ, pos, eqb_ℤ, ltb_ℤ}
use liqvera.Python.{Str, Raised, value_error, Unicode, codes, str_eq, is_empty, strip}
use liqvera.Decimal.{Number, finite}
use liqvera.Json.{Json, Items, no_items, item, Members, get}
use liqvera.Json.Builtins.{Builtins}
use liqvera.Market.{InstrumentIdentity}
use liqvera.Market.Venue.{venue_market, at_most_nought}
use liqvera.Capture.Fields.{object_of, array_of, string_of, integer_of, decimal_of}
use liqvera.Adapter.{KnownMarket, Dict, assign}

abbrev pub lighter : Str
lighter = codes "LIGHTER"

pub record LighterInstrumentMapping : Type 0 where
  pub identity : InstrumentIdentity
  pub contract_multiplier : Number
  pub displayed_size_unit : Str
  pub equivalence_evidence : Str

-- `__post_init__` of the mapping
unfoldable pub lighter_instrument_mapping :
    Unicode → LighterInstrumentMapping → Result Raised LighterInstrumentMapping
lighter_instrument_mapping u m = do
  low ← at_most_nought m.contract_multiplier
  raise_if
      (low || is_empty (strip u m.displayed_size_unit) || is_empty (strip u m.equivalence_evidence))
      value_error
  ok m

-- `_response`
unfoldable pub response_of : Json → Result Raised Members
response_of raw = do
  fields ← object_of raw
  code ← integer_of (get (codes "code") fields)
  raise_if (not (eqb_ℤ code (pos 200))) value_error
  ok fields

-- `mapping_for` of the provider, and `Decimal(1).scaleb(-n)`
module _ (u : Unicode) (b : Builtins) (scaled : ℤ → Result Raised Number)
    (mapping_for : Str → Members → Option LighterInstrumentMapping) where
  -- From `size_decimals` on
  unfoldable pub known_of_detail :
      Str → Members → LighterInstrumentMapping → Result Raised KnownMarket
  known_of_detail symbol detail mapping = do
    size_decimals ← integer_of (get (codes "supported_size_decimals") detail)
    price_decimals ← integer_of (get (codes "supported_price_decimals") detail)
    raise_if (ltb_ℤ size_decimals (pos 0) || ltb_ℤ price_decimals (pos 0)) value_error
    quantity_step ← scaled size_decimals
    price_tick ← scaled price_decimals
    min_notional ← decimal_of b (get (codes "min_quote_amount") detail)
    min_quantity ← decimal_of b (get (codes "min_base_amount") detail)
    market ← venue_market (record {
      venue = lighter;
      symbol = symbol;
      identity = mapping.identity;
      contract_multiplier = mapping.contract_multiplier;
      displayed_size_unit = mapping.displayed_size_unit;
      quantity_step = quantity_step;
      price_tick = some price_tick;
      min_notional = finite min_notional;
      equivalence_evidence = mapping.equivalence_evidence;
      price_decimals = none;
      max_price_significant_digits = none;
      min_quantity = some (finite min_quantity);
    })
    index ← integer_of (get (codes "market_id") detail)
    ok (record { index = index; market = market })

  -- `known[symbol] = ...`, where the provider knows the market
  unfoldable pub learn :
      Str
      → Members
      → Option LighterInstrumentMapping
      → Dict KnownMarket
      → Result Raised (Dict KnownMarket)
  learn symbol detail none known = ok known
  learn symbol detail (some mapping) known = do
    k ← known_of_detail symbol detail mapping
    ok (assign symbol k known)

  -- One round of the loop.
  unfoldable pub read_detail : Json → Dict KnownMarket → Result Raised (Dict KnownMarket)
  read_detail raw known = do
    detail ← object_of raw
    market_type ← string_of u (get (codes "market_type") detail)
    raise_if (not (str_eq market_type (codes "perp"))) value_error
    status ← string_of u (get (codes "status") detail)
    if not (str_eq status (codes "active")) then ok known else do
      symbol ← string_of u (get (codes "symbol") detail)
      learn symbol detail (mapping_for symbol detail) known

  unfoldable pub read_details : Items → Dict KnownMarket → Result Raised (Dict KnownMarket)
  read_details no_items known = ok known
  read_details (item raw rest) known = do later ← read_detail raw known; read_details rest later

  -- The dictionary of a response
  unfoldable pub discovered : Json → Result Raised (Dict KnownMarket)
  discovered response = do
    payload ← response_of response
    details ← array_of (get (codes "order_book_details") payload)
    read_details details []
