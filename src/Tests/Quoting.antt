-- ===== src/Tests/Quoting.antt =====
-- The Hyperliquid adapter, after a listing.
use liqvera.Prelude.{◌≡◌, refl, List, [], ◌∷◌, Option, none, some, Result, ok}
use liqvera.Prelude.Int.{ℤ, pos}
use liqvera.Python.{Str, codes}
use liqvera.Decimal.{finite}
use liqvera.Json.{
  Json, null, text, integer, array, object, Items, no_items, item, Members, no_members, member,
}
use liqvera.Market.{OrderBookSnapshot}
use liqvera.Market.Venue.{VenueMarket}
use liqvera.Adapter.Hyperliquid.{
  hyperliquid, HyperliquidInstrumentMapping, HyperliquidPublicAdapter, list_markets, order_book,
}
use liqvera.Adapter.Quoted.{IsQuoted, order_book-IsQuoted}
use liqvera.Tests.{ascii}
use liqvera.Tests.Frozen.{one}
use liqvera.Tests.Capturing.{lengths, of_length}
use liqvera.Tests.Adapting.{identity}

abbrev toy_mapping_for : Str → Members → Option HyperliquidInstrumentMapping
toy_mapping_for symbol metadata = some (record {
  identity = identity;
  contract_multiplier = finite one;
  displayed_size_unit = codes "coin";
  min_notional = finite one;
  equivalence_evidence = codes "reviewed/v1";
})

abbrev meta : Members
meta =
    member (codes "universe")
      (array (
        item
          (object (
            member (codes "name") (text (codes "BTC"))
              (member (codes "szDecimals") (integer (pos 5)) no_members)))
          no_items))
      no_members

abbrev listing : Json
listing = array (item (object meta) (item (array (item null no_items)) no_items))

abbrev market : VenueMarket
market = record {
  venue = hyperliquid;
  symbol = codes "BTC";
  identity = identity;
  contract_multiplier = finite one;
  displayed_size_unit = codes "coin";
  quantity_step = finite (record { coefficient = pos 1; places = 5 });
  price_tick = none;
  min_notional = finite one;
  equivalence_evidence = codes "reviewed/v1";
  price_decimals = some (pos 1);
  max_price_significant_digits = some (pos 5);
  min_quantity = none;
}

abbrev empty : HyperliquidPublicAdapter
empty = record { known_markets = [] }

abbrev listed : HyperliquidPublicAdapter
listed = record { known_markets = (codes "BTC", record { index = pos 0; market = market }) ∷ [] }

abbrev side : Str → Json
side price = array (
    item
      (object
        (member (codes "px") (text price) (member (codes "sz") (text (codes ".")) no_members)))
      no_items)

abbrev response : Json
response = object (
    member (codes "coin") (text (codes "BTC")) (
      member (codes "time") (integer (pos 100)) (
        member (codes "levels")
          (array (item (side (codes "..")) (item (side (codes "...")) no_items))) no_members)))

abbrev shown : OrderBookSnapshot
shown = record {
  venue = hyperliquid;
  symbol = codes "BTC";
  sequence = none;
  exchange_timestamp_ms = pos 100;
  received_timestamp_ms = pos 110;
  bids = record { price = of_length (codes ".."); quantity = of_length (codes ".") } ∷ [];
  asks = record { price = of_length (codes "..."); quantity = of_length (codes ".") } ∷ [];
}

listing-lists :
    list_markets ascii lengths toy_mapping_for listing empty ≡ (listed, ok (market ∷ []))
unfolding list_markets liqvera.Prelude.Action.◌>>=◌ liqvera.Adapter.Hyperliquid.discovered
    liqvera.Adapter.Hyperliquid.store liqvera.Adapter.Hyperliquid.meta_and_contexts
    liqvera.Adapter.Hyperliquid.list_of liqvera.Json.get liqvera.Python.str_eq
    liqvera.Adapter.Hyperliquid.objects_of liqvera.Adapter.Hyperliquid.read_universe
    liqvera.Capture.Fields.string_of liqvera.Python.strip liqvera.Python.drop_spaces
    liqvera.Adapter.Hyperliquid.learn liqvera.Market.Venue.venue_market
    liqvera.Market.Venue.any_at_most_nought liqvera.Market.Venue.at_most_nought
    liqvera.Market.Venue.require_optional_positive liqvera.Decimal.le liqvera.Prelude.Int.◌*ℤ◌
    liqvera.Adapter.assign
listing-lists = refl

response-read : order_book ascii lengths (pos 110) market response listed ≡ (listed, ok shown)
unfolding order_book liqvera.Adapter.require_market liqvera.Python.str_eq liqvera.Adapter.is_known
    liqvera.Adapter.lookup liqvera.Adapter.market_eq liqvera.Market.Common.same_identity
    liqvera.Adapter.number_eq liqvera.Decimal.eq liqvera.Prelude.Int.◌*ℤ◌
    liqvera.Adapter.Hyperliquid.book_of liqvera.Capture.Fields.string_of
    liqvera.Capture.Fields.decimal_of liqvera.Json.get liqvera.Python.strip
    liqvera.Python.drop_spaces liqvera.Adapter.Hyperliquid.list_of
    liqvera.Adapter.Hyperliquid.levels_of liqvera.Adapter.Hyperliquid.book_levels liqvera.Decimal.le
    liqvera.Decimal.lt liqvera.Market.admit liqvera.Market.book_level liqvera.Market.is_crossed
    liqvera.Market.strictly_ascending liqvera.Market.strictly_descending
response-read = refl

order_book-IsQuoted_example : IsQuoted ascii listed (pos 110) market response shown
order_book-IsQuoted_example =
    order_book-IsQuoted ascii lengths toy_mapping_for listing empty (pos 110) market response
      listing-lists response-read
