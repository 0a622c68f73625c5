-- ===== src/Reconstruction/Lighter.antt =====
-- The messages of packages/readonly-analyzer/src/liqvera_readonly_analyzer/reconstruction/lighter.py.
use liqvera.Prelude.{
  ℕ, ◌||◌, List, [], ◌∷◌, Option, none, some, Result, err, ok, ◌>>=◌, ◌>>◌, raise_if, if◌then◌else◌,
}
use liqvera.Prelude.Int.{ℤ, pos}
use liqvera.Python.{Str, Unicode, codes, is_empty, str_eq}
use liqvera.Decimal.{le, lt, nought}
use liqvera.Market
use liqvera.Market.{BookLevel, OrderBookSnapshot}
use liqvera.Json.{
  Json, Items, no_items, item, Members, get, find, as_text, as_integer, as_array, as_object,
}
use liqvera.Reconstruction.Book.{Error, reconstruction_error, require_lighter_channel}
use liqvera.Reconstruction.Levels.{Delta, apply_side}
use liqvera.Reconstruction.Decoding.{
  Loads, or_undecoded, require, or_reject, price_and_size, book_levels,
}

pub record LighterSnapshot : Type 0 where
  pub channel : Str
  pub symbol : Option Str
  pub timestamp : ℤ
  pub nonce : ℤ
  pub bids : List BookLevel
  pub asks : List BookLevel

pub record LighterUpdate : Type 0 where
  pub channel : Str
  pub symbol : Option Str
  pub timestamp : ℤ
  pub nonce : ℤ
  pub begin_nonce : ℤ
  pub bids : List Delta
  pub asks : List Delta

pub data Message : Type 0 where
  a_snapshot : LighterSnapshot → Message
  an_update : LighterUpdate → Message

-- `_channel`
unfoldable pub channel_of : Unicode → Members → Result Error Str
channel_of u document = do
  channel ← require (as_text (get (codes "channel") document))
  raise_if (is_empty channel) reconstruction_error
  or_reject (require_lighter_channel u channel)
  ok channel

-- `_optional_symbol`
unfoldable pub optional_symbol : Members → Result Error (Option Str)
optional_symbol document = elim (find (codes "symbol") document) [
  | none ↦ ok none
  | some raw ↦ do
    symbol ← require (as_text raw)
    raise_if (is_empty symbol) reconstruction_error
    ok (some symbol)
]

-- `_delta_levels`, behind the test on the array
unfoldable pub deltas_of_items : Unicode → Items → Result Error (List Delta)
deltas_of_items u no_items = ok []
deltas_of_items u (item raw rest) = do
  delta ← price_and_size u (codes "price") (codes "size") raw
  raise_if (le delta.0 nought || lt delta.1 nought) reconstruction_error
  deltas ← deltas_of_items u rest
  ok (delta ∷ deltas)

unfoldable pub delta_levels : Unicode → Json → Result Error (List Delta)
delta_levels u raw = do items ← require (as_array raw); deltas_of_items u items

-- `_decode_snapshot`
unfoldable pub decode_snapshot : Unicode → Members → Result Error Message
decode_snapshot u document = do
  channel ← channel_of u document
  timestamp ← require (as_integer (get (codes "timestamp") document))
  symbol ← optional_symbol document
  order_book ← require (as_object (get (codes "order_book") document))
  nonce ← require (as_integer (get (codes "nonce") order_book))
  bids ← book_levels u (codes "price") (codes "size") (get (codes "bids") order_book)
  asks ← book_levels u (codes "price") (codes "size") (get (codes "asks") order_book)
  ok (
      a_snapshot (record {
        channel = channel;
        symbol = symbol;
        timestamp = timestamp;
        nonce = nonce;
        bids = bids;
        asks = asks;
      }))

-- `_decode_update`
unfoldable pub decode_update : Unicode → Members → Result Error Message
decode_update u document = do
  channel ← channel_of u document
  timestamp ← require (as_integer (get (codes "timestamp") document))
  symbol ← optional_symbol document
  order_book ← require (as_object (get (codes "order_book") document))
  begin_nonce ← require (as_integer (get (codes "begin_nonce") order_book))
  nonce ← require (as_integer (get (codes "nonce") order_book))
  bids ← delta_levels u (get (codes "bids") order_book)
  asks ← delta_levels u (get (codes "asks") order_book)
  ok (
      an_update (record {
        channel = channel;
        symbol = symbol;
        timestamp = timestamp;
        nonce = nonce;
        begin_nonce = begin_nonce;
        bids = bids;
        asks = asks;
      }))

-- `message_type`, by the text it equals
unfoldable pub decode_document : Unicode → Members → Option Str → Result Error Message
decode_document u document none = err reconstruction_error
decode_document u document (some message_type) =
    if str_eq message_type (codes "subscribed/order_book")
    then decode_snapshot u document
    else if str_eq message_type (codes "update/order_book")
    then decode_update u document
    else err reconstruction_error

-- `decode_lighter_envelope`
unfoldable pub decode_lighter_envelope : Unicode → Loads → List ℕ → Result Error Message
decode_lighter_envelope u loads payload = do
  loaded ← or_undecoded (loads payload)
  document ← require (as_object loaded)
  decode_document u document (as_text (get (codes "type") document))

-- `update.symbol if update.symbol is not None else previous.symbol`
abbrev pub symbol_or : Option Str → Str → Str
symbol_or none s = s
symbol_or (some t) s = t

-- `apply_lighter_update`
unfoldable pub apply_lighter_update :
    OrderBookSnapshot → LighterUpdate → ℕ → Result Market.Error OrderBookSnapshot
apply_lighter_update previous update observed_at_ms = do
  bids ← apply_side previous.bids update.bids
  asks ← apply_side previous.asks update.asks
  Market.admit (record {
    venue = codes "LIGHTER";
    symbol = symbol_or update.symbol previous.symbol;
    sequence = some update.nonce;
    exchange_timestamp_ms = update.timestamp;
    received_timestamp_ms = pos observed_at_ms;
    bids = bids;
    asks = asks;
  })
