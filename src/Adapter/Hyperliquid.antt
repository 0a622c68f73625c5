-- ===== src/Adapter/Hyperliquid.antt =====
-- `HyperliquidPublicAdapter` of packages/public-capture/src/liqvera_public_capture/public_adapters/
-- hyperliquid.py. What the transport returned, and what the clock read, are arguments.
use liqvera.Prelude.{
  ℕ, suc, ◌-◌, not, List, [], ◌∷◌, map, Option, none, some, Result, ok, err, ◌>>=◌, ◌>>◌, raise_if,
  leb, ◌==◌, if◌then◌else◌, length,
}
use liqvera.Prelude.Int.{ℤ, pos, negsuc}
use liqvera.Prelude.Action
use liqvera.Prelude.Action.{Action, call}
use liqvera.Python.{Str, Raised, value_error, Unicode, codes, str_eq, is_empty, strip}
use liqvera.Decimal.{Number, finite}
use liqvera.Json.{Json, Items, no_items, item, Members, get}
use liqvera.Json.Builtins.{Builtins}
use liqvera.Market
use liqvera.Market.{InstrumentIdentity, BookLevel, OrderBookSnapshot, book_level}
use liqvera.Market.Venue.{VenueMarket, venue_market, at_most_nought}
use liqvera.Capture.Fields.{object_of, array_of, string_of, integer_of, decimal_of}
use liqvera.Capture.Reducer.{market_value}
use liqvera.Adapter.{KnownMarket, Dict, assign, require_market}

abbrev pub hyperliquid : Str
hyperliquid = codes "HYPERLIQUID"

pub record HyperliquidInstrumentMapping : Type 0 where
  pub identity : InstrumentIdentity
  pub contract_multiplier : Number
  pub displayed_size_unit : Str
  pub min_notional : Number
  pub equivalence_evidence : Str

-- `__post_init__` of the mapping
unfoldable pub hyperliquid_instrument_mapping :
    Unicode → HyperliquidInstrumentMapping → Result Raised HyperliquidInstrumentMapping
hyperliquid_instrument_mapping u m = do
  low ← at_most_nought m.contract_multiplier
  raise_if low value_error
  cheap ← at_most_nought m.min_notional
  raise_if cheap value_error
  raise_if (is_empty (strip u m.displayed_size_unit)) value_error
  raise_if (is_empty (strip u m.equivalence_evidence)) value_error
  ok m

unfoldable pub list_of : Items → List Json
list_of no_items = []
list_of (item raw rest) = raw ∷ list_of rest

-- `_sequence`
abbrev pub sequence_of : Json → Result Raised (List Json)
sequence_of raw = do items ← array_of raw; ok (list_of items)

-- A sequence of two
abbrev pub pair_of {ℓ} : {A : Type ℓ} → List A → Result Raised (A × A)
pair_of (x ∷ y ∷ []) = ok (x, y)
pair_of _ = err value_error

-- `tuple(_mapping(item) for item in ...)`
unfoldable pub objects_of : List Json → Result Raised (List Members)
objects_of [] = ok []
objects_of (raw ∷ rest) = do fields ← object_of raw; later ← objects_of rest; ok (fields ∷ later)

-- `_meta_and_contexts`: the universe
unfoldable pub meta_and_contexts : Json → Result Raised (List Members)
meta_and_contexts response = do
  outer ← sequence_of response
  both ← pair_of outer
  metadata ← object_of both.0
  universe ← sequence_of (get (codes "universe") metadata)
  contexts ← sequence_of both.1
  raise_if (not (length universe == length contexts)) value_error
  objects_of universe

-- `_book_levels`, before the test that there are any
unfoldable pub levels_of : Builtins → List Json → Result Raised (List BookLevel)
levels_of b [] = ok []
levels_of b (raw ∷ rest) = do
  fields ← object_of raw
  price ← decimal_of b (get (codes "px") fields)
  size ← decimal_of b (get (codes "sz") fields)
  level ← market_value (book_level price size)
  levels ← levels_of b rest
  ok (level ∷ levels)

-- `_book_levels`
unfoldable pub book_levels : Builtins → Json → Result Raised (List BookLevel)
book_levels b raw = do
  items ← sequence_of raw
  levels ← levels_of b items
  raise_if (is_empty levels) value_error
  ok levels

-- `0 <= sz_decimals <= 6`
abbrev pub perp_decimals : ℤ → Result Raised ℕ
perp_decimals (pos n) = if leb n 6 then ok n else err value_error
perp_decimals (negsuc n) = err value_error

-- The market of one entry of the universe; `Decimal(1).scaleb(-n)` is exact there.
abbrev pub perp_market : Str → ℕ → HyperliquidInstrumentMapping → VenueMarket
perp_market symbol sz_decimals mapping = record {
  venue = hyperliquid;
  symbol = symbol;
  identity = mapping.identity;
  contract_multiplier = mapping.contract_multiplier;
  displayed_size_unit = mapping.displayed_size_unit;
  quantity_step = finite (record { coefficient = pos 1; places = sz_decimals });
  price_tick = none;
  min_notional = mapping.min_notional;
  equivalence_evidence = mapping.equivalence_evidence;
  price_decimals = some (pos (6 - sz_decimals));
  max_price_significant_digits = some (pos 5);
  min_quantity = none;
}

-- The rest of a round, where the provider knows the market
unfoldable pub learn :
    ℕ
    → Str
    → ℕ
    → Option HyperliquidInstrumentMapping
    → Dict KnownMarket
    → Result Raised (Dict KnownMarket)
learn asset_index symbol sz_decimals none known = ok known
learn asset_index symbol sz_decimals (some mapping) known = do
  market ← venue_market (perp_market symbol sz_decimals mapping)
  ok (assign symbol (record { index = pos asset_index; market = market }) known)

-- The adapter's dictionary, `_known_markets`
pub record HyperliquidPublicAdapter : Type 0 where
  pub known_markets : Dict KnownMarket

-- The new dictionary, and its markets
unfoldable pub store : Dict KnownMarket → Action HyperliquidPublicAdapter Raised (List VenueMarket)
store known a = (
  record { known_markets = known },
  ok (map (λ (entry : Str × KnownMarket). entry.1.market) known),
)

module _ (u : Unicode) (b : Builtins) where
  module _ (mapping_for : Str → Members → Option HyperliquidInstrumentMapping) where
    -- The loop of `list_markets`, from an index on
    unfoldable pub read_universe :
        ℕ → List Members → Dict KnownMarket → Result Raised (Dict KnownMarket)
    read_universe asset_index [] known = ok known
    read_universe asset_index (metadata ∷ universe) known = do
      symbol ← string_of u (get (codes "name") metadata)
      given ← integer_of (get (codes "szDecimals") metadata)
      sz_decimals ← perp_decimals given
      later ← learn asset_index symbol sz_decimals (mapping_for symbol metadata) known
      read_universe (suc asset_index) universe later

    -- The dictionary of a response
    unfoldable pub discovered : Json → Result Raised (Dict KnownMarket)
    discovered response = do universe ← meta_and_contexts response; read_universe 0 universe []

    -- `list_markets`
    unfoldable pub list_markets : Json → Action HyperliquidPublicAdapter Raised (List VenueMarket)
    list_markets response = Action.◌>>=◌ (call (discovered response)) store

  -- The snapshot of a response
  unfoldable pub book_of : ℤ → VenueMarket → Json → Result Raised OrderBookSnapshot
  book_of received market response = do
    payload ← object_of response
    coin ← string_of u (get (codes "coin") payload)
    raise_if (not (str_eq coin market.symbol)) value_error
    timestamp ← integer_of (get (codes "time") payload)
    levels ← sequence_of (get (codes "levels") payload)
    sides ← pair_of levels
    bids ← book_levels b sides.0
    asks ← book_levels b sides.1
    market_value (
        Market.admit (record {
          venue = hyperliquid;
          symbol = market.symbol;
          sequence = none;
          exchange_timestamp_ms = timestamp;
          received_timestamp_ms = received;
          bids = bids;
          asks = asks;
        }))

  -- `order_book`
  unfoldable pub order_book :
      ℤ → VenueMarket → Json → Action HyperliquidPublicAdapter Raised OrderBookSnapshot
  order_book received market response a = (
    a,
    require_market hyperliquid a.known_markets market >>= λ known. book_of received market response,
  )
