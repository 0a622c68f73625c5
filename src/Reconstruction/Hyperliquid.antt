-- ===== src/Reconstruction/Hyperliquid.antt =====
-- packages/readonly-analyzer/src/liqvera_readonly_analyzer/reconstruction/hyperliquid.py
use liqvera.Prelude.{ℕ, List, none, Result, err, ok, ◌>>=◌, ◌>>◌, raise_if}
use liqvera.Prelude.Int.{pos}
use liqvera.Python.{Unicode, codes, is_empty, strip}
use liqvera.Market
use liqvera.Market.{OrderBookSnapshot}
use liqvera.Json.{Json, Items, no_items, item, get, as_text, as_integer, as_array, as_object}
use liqvera.Reconstruction.Book.{Error, reconstruction_error}
use liqvera.Reconstruction.Decoding.{Loads, or_undecoded, require, or_reject, book_levels}

-- `levels[0]` and `levels[1]`, where there are exactly two
unfoldable pub two_sides : Items → Result Error (Json × Json)
two_sides (item bids (item asks no_items)) = ok (bids, asks)
two_sides _ = err reconstruction_error

-- `decode_hyperliquid_l2book`
unfoldable pub decode_hyperliquid_l2book :
    Unicode → Loads → List ℕ → ℕ → Result Error OrderBookSnapshot
decode_hyperliquid_l2book u loads payload observed_at_ms = do
  loaded ← or_undecoded (loads payload)
  document ← require (as_object loaded)
  coin ← require (as_text (get (codes "coin") document))
  raise_if (is_empty (strip u coin)) reconstruction_error
  time ← require (as_integer (get (codes "time") document))
  levels ← require (as_array (get (codes "levels") document))
  sides ← two_sides levels
  bids ← book_levels u (codes "px") (codes "sz") sides.0
  asks ← book_levels u (codes "px") (codes "sz") sides.1
  or_reject (
      Market.admit (record {
        venue = codes "HYPERLIQUID";
        symbol = coin;
        sequence = none;
        exchange_timestamp_ms = time;
        received_timestamp_ms = pos observed_at_ms;
        bids = bids;
        asks = asks;
      }))
