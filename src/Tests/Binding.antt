-- ===== src/Tests/Binding.antt =====
-- Books bound to mappings, and messages that rebuild books.
use liqvera.Prelude.{◌≡◌, refl, List, [], ◌∷◌, none, some, ok, true, false}
use liqvera.Prelude.Int.{pos}
use liqvera.Python.{Str, codes, str_eq}
use liqvera.Market.{OrderBookSnapshot}
use liqvera.Provenance.{MarketMappingEvidence, approved}
use liqvera.Reconstruction.Book.{ReconstructedBook, hyperliquid_decoder_id}
use liqvera.Identity.{is_candidate, with_mapping, bind_book, bind_reconstructed_books}
use liqvera.Identity.Binding.{Bound, bind_reconstructed_books-Bound}
use liqvera.Tests.{ascii}
use liqvera.Tests.Books.{level, two_asks, perpetual, whole}

-- A lowercase digest of 64 digits.
abbrev pub digest : Str
digest = codes "0123456789abcdef0123456789abcdef0123456789abcdef0123456789abcdef"

abbrev plain : OrderBookSnapshot
plain = record {
  venue = codes "HYPERLIQUID";
  symbol = codes "BTC";
  sequence = none;
  exchange_timestamp_ms = pos 1000;
  received_timestamp_ms = pos 1010;
  bids = level 99 1 ∷ [];
  asks = two_asks;
}

abbrev unbound : ReconstructedBook
unbound = record {
  snapshot = plain;
  envelope_index = 3;
  payload_sha256 = digest;
  decoder_id = hyperliquid_decoder_id;
  epoch_id = 0;
  mapping_id = none;
  mapping = none;
  channel = none;
}

abbrev mapped : Str → MarketMappingEvidence
mapped symbol = record {
  mapping_id = codes "m1";
  mapping_version = codes "v1";
  decision = approved;
  venue = codes "HYPERLIQUID";
  symbol = symbol;
  identity = perpetual;
  evidence_sha256 = digest;
  evidence_reference = codes "doc";
  valid_from_ms = 1000;
  valid_until_ms = some 2000;
  reviewed_contract_multiplier = whole 1;
  displayed_size_unit = codes "coin";
  quantity_step = whole 1;
  price_tick = some (whole 1);
  price_decimals = none;
  max_price_significant_digits = none;
  min_quantity = none;
  min_notional = whole 10;
  lighter_market_index = none;
}

abbrev two_mappings : List MarketMappingEvidence
two_mappings = mapped (codes "ETH") ∷ mapped (codes "BTC") ∷ []

book-bound : bind_book ascii two_mappings unbound ≡ ok (with_mapping unbound (mapped (codes "BTC")))
unfolding bind_book liqvera.Identity.candidates str_eq liqvera.Identity.choose
    liqvera.Identity.select is_candidate liqvera.Provenance.is_current liqvera.Identity.admitted
    liqvera.Reconstruction.Book.admit liqvera.Reconstruction.Book.require_venue
    liqvera.Python.is_sha256 liqvera.Reconstruction.Book.require_mapping
    liqvera.Reconstruction.Book.require_channel
book-bound = refl

books-bound :
    bind_reconstructed_books ascii (unbound ∷ []) two_mappings
    ≡ ok (with_mapping unbound (mapped (codes "BTC")) ∷ [])
unfolding bind_reconstructed_books bind_book liqvera.Identity.candidates str_eq
    liqvera.Identity.choose liqvera.Identity.select is_candidate liqvera.Provenance.is_current
    liqvera.Identity.admitted liqvera.Reconstruction.Book.admit
    liqvera.Reconstruction.Book.require_venue liqvera.Python.is_sha256
    liqvera.Reconstruction.Book.require_mapping liqvera.Reconstruction.Book.require_channel
books-bound = refl

is-candidate : is_candidate ascii (mapped (codes "BTC")) unbound ≡ true
unfolding is_candidate str_eq liqvera.Provenance.is_current
is-candidate = refl

not-lighter : str_eq (codes "HYPERLIQUID") (codes "lighter") ≡ false
unfolding str_eq
not-lighter = refl

bind_reconstructed_books-Bound_example :
    Bound ascii two_mappings (unbound ∷ []) (with_mapping unbound (mapped (codes "BTC")) ∷ [])
bind_reconstructed_books-Bound_example =
    bind_reconstructed_books-Bound ascii (unbound ∷ []) two_mappings
      {cs = with_mapping unbound (mapped (codes "BTC")) ∷ []} books-bound
