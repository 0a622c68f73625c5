-- ===== src/Tests/Adapting.antt =====
-- The Lighter adapter, after a listing and a message.
use liqvera.Prelude.{◌≡◌, refl, ap, ◌∙◌, true, false, List, [], ◌∷◌, Option, none, some, Result, ok}
use liqvera.Prelude.Int.{ℤ, pos, negsuc}
use liqvera.Python.{Str, Raised, codes}
use liqvera.Decimal.{Decimal, Number, finite}
use liqvera.Json.{
  Json, text, integer, array, object, Items, no_items, item, Members, no_members, member,
}
use liqvera.Market.{InstrumentIdentity, OrderBookSnapshot}
use liqvera.Market.Venue.{VenueMarket}
use liqvera.Capture.Reducer.{LighterBookReducer}
use liqvera.Adapter.Details.{lighter, LighterInstrumentMapping}
use liqvera.Adapter.Lighter.{
  LighterPublicAdapter, new_adapter, order_book, apply_order_book_message, list_markets,
}
use liqvera.Adapter.Channel.{Call, listing, message}
use liqvera.Adapter.Served.{calls, IsServed, calls-IsServed}
use liqvera.Adapter.Live.{apply_order_book_message-order_book}
use liqvera.Tests.{ascii}
use liqvera.Tests.Frozen.{one}
use liqvera.Tests.Capturing.{lengths, opening, of_length}

abbrev pub identity : InstrumentIdentity
identity = record {
  base_asset = codes "BTC";
  quote_asset = codes "USD";
  product_kind = codes "perp";
  settlement_asset = codes "USD";
  payoff_kind = codes "linear";
}

abbrev toy_scaled : ℤ → Result Raised Number
toy_scaled (pos n) = ok (finite (record { coefficient = pos 1; places = n }))
toy_scaled (negsuc n) = ok (finite one)

abbrev toy_mapping_for : Str → Members → Option LighterInstrumentMapping
toy_mapping_for symbol detail = some (record {
  identity = identity;
  contract_multiplier = finite one;
  displayed_size_unit = codes "coin";
  equivalence_evidence = codes "reviewed/v1";
})

abbrev detail : Members
detail = member (codes "market_type") (text (codes "perp")) (
    member (codes "status") (text (codes "active")) (
      member (codes "symbol") (text (codes "BTC")) (
        member (codes "supported_size_decimals") (integer (pos 3)) (
          member (codes "supported_price_decimals") (integer (pos 1)) (
            member (codes "min_quote_amount") (text (codes "..")) (
              member (codes "min_base_amount") (text (codes "."))
                (member (codes "market_id") (integer (pos 7)) no_members)))))))

abbrev response : Json
response = object (
    member (codes "code") (integer (pos 200))
      (member (codes "order_book_details") (array (item (object detail) no_items)) no_members))

abbrev pub market : VenueMarket
market = record {
  venue = lighter;
  symbol = codes "BTC";
  identity = identity;
  contract_multiplier = finite one;
  displayed_size_unit = codes "coin";
  quantity_step = finite (record { coefficient = pos 1; places = 3 });
  price_tick = some (finite (record { coefficient = pos 1; places = 1 }));
  min_notional = finite (of_length (codes ".."));
  equivalence_evidence = codes "reviewed/v1";
  price_decimals = none;
  max_price_significant_digits = none;
  min_quantity = some (finite (of_length (codes ".")));
}

abbrev listed : LighterPublicAdapter
listed = record {
  known = (codes "BTC", record { index = pos 7; market = market }) ∷ [];
  books = [];
}

abbrev fed : LighterPublicAdapter
fed = record listed {
  books =
      (
        codes "BTC",
        record {
          symbol = codes "BTC";
          market_index = pos 7;
          bids = (of_length (codes ".."), of_length (codes ".")) ∷ [];
          asks = (of_length (codes "..."), of_length (codes ".")) ∷ [];
          nonce = some (pos 5);
          timestamp_ms = some (pos 100);
          unavailable = false;
        },
      )
      ∷ [];
}

abbrev shown : OrderBookSnapshot
shown = record {
  venue = lighter;
  symbol = codes "BTC";
  sequence = some (pos 5);
  exchange_timestamp_ms = pos 100;
  received_timestamp_ms = pos 110;
  bids = record { price = of_length (codes ".."); quantity = of_length (codes ".") } ∷ [];
  asks = record { price = of_length (codes "..."); quantity = of_length (codes ".") } ∷ [];
}

opening-feeds :
    apply_order_book_message ascii lengths (pos 110) market opening listed ≡ (fed, ok (some shown))
unfolding apply_order_book_message liqvera.Prelude.Action.◌>>=◌ liqvera.Adapter.require_market
    liqvera.Python.str_eq liqvera.Adapter.is_known liqvera.Adapter.lookup liqvera.Adapter.market_eq
    liqvera.Market.Common.same_identity liqvera.Adapter.number_eq liqvera.Decimal.eq
    liqvera.Prelude.Int.◌*ℤ◌ liqvera.Adapter.Lighter.reduce liqvera.Adapter.assign
    liqvera.Capture.Reducer.apply liqvera.Capture.Reducer.step liqvera.Capture.Fields.string_of
    liqvera.Json.get liqvera.Python.strip liqvera.Capture.Reducer.str_int
    liqvera.Capture.Fields.decimal_of liqvera.Capture.Reducer.apply_items
    liqvera.Capture.Reducer.apply_levels liqvera.Capture.Reducer.book_levels
    liqvera.Capture.Reducer.build_snapshot liqvera.Capture.Reducer.follow
    liqvera.Capture.Reducer.insert_level liqvera.Capture.Reducer.levels liqvera.Capture.Reducer.pop
    liqvera.Capture.Reducer.put liqvera.Capture.Reducer.read_level liqvera.Capture.Reducer.snapshot
    liqvera.Capture.Reducer.snapshot_of liqvera.Capture.Reducer.sorted liqvera.Capture.Reducer.start
    liqvera.Capture.Reducer.timed_snapshot liqvera.Capture.Reducer.update liqvera.Decimal.le
    liqvera.Decimal.lt liqvera.Market.admit liqvera.Market.book_level liqvera.Market.is_crossed
    liqvera.Market.strictly_ascending liqvera.Market.strictly_descending liqvera.Python.drop_spaces
    liqvera.Python.str_fuel liqvera.Python.str_nat
opening-feeds = refl

apply_order_book_message-order_book_example : order_book (pos 110) market fed ≡ (fed, ok shown)
apply_order_book_message-order_book_example =
    apply_order_book_message-order_book ascii lengths (pos 110) market opening listed opening-feeds

abbrev history : List Call
history = listing response ∷ message (pos 110) market opening ∷ []

response-lists :
    (list_markets ascii lengths toy_scaled toy_mapping_for response new_adapter).0 ≡ listed
unfolding liqvera.Adapter.Lighter.list_markets liqvera.Adapter.Details.discovered
    liqvera.Adapter.Details.response_of liqvera.Json.get liqvera.Adapter.Details.read_details
    liqvera.Adapter.Details.read_detail liqvera.Capture.Fields.string_of liqvera.Python.strip
    liqvera.Adapter.Details.learn liqvera.Adapter.Details.known_of_detail
    liqvera.Capture.Fields.decimal_of liqvera.Adapter.assign liqvera.Market.Venue.any_at_most_nought
    liqvera.Market.Venue.at_most_nought liqvera.Market.Venue.require_optional_positive
    liqvera.Market.Venue.venue_market liqvera.Python.str_eq liqvera.Decimal.le
    liqvera.Prelude.Int.◌*ℤ◌ liqvera.Python.drop_spaces liqvera.Prelude.Action.◌>>=◌
response-lists = refl

history-calls : calls ascii lengths toy_scaled toy_mapping_for history new_adapter ≡ fed
unfolding calls
history-calls =
    ap (λ a. (apply_order_book_message ascii lengths (pos 110) market opening a).0) response-lists
    ∙ ap (λ x. x.0) opening-feeds

history-served :
    order_book (pos 110) market (calls ascii lengths toy_scaled toy_mapping_for history new_adapter)
    ≡ (fed, ok shown)
history-served =
    ap (order_book (pos 110) market) history-calls ∙ apply_order_book_message-order_book_example

calls-IsServed_example :
    IsServed ascii history
      (calls ascii lengths toy_scaled toy_mapping_for history new_adapter)
      market
      shown
calls-IsServed_example =
    calls-IsServed ascii lengths toy_scaled toy_mapping_for history (pos 110) market history-served
