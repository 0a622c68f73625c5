-- ===== src/Tests/Books.antt =====
-- A book that the code accepts, its updates and its fills.
use liqvera.Prelude.{
  ℕ, ◌*◌, ◌≤◌, ◌<◌, ◌≡◌, ◌↔◌, refl, ap, ◌∙◌, List, [], ◌∷◌, none, some, ok, err, arith, foldl,
}
use liqvera.Prelude.Int.{pos, ◌≤ℤ◌, ◌*ℤ◌, pos-*ℤ-pos}
use liqvera.Python.{Str, Unicode, IsUnicode, codes, any, str_eq}
use liqvera.Decimal.{Decimal, from_decimal}
use liqvera.Decimal.Exact.{from_decimal_exact}
use liqvera.Market.{InstrumentIdentity, BookLevel, OrderBookSnapshot}
use liqvera.Market
use liqvera.Market.Admission.{IsBook, admit_iff}
use liqvera.Provenance.{MarketMappingEvidence, approved}
use liqvera.Reconstruction.Book.{ReconstructedBook, lighter_decoder_id}
use liqvera.Reconstruction.Levels.{apply_side, said, size_at, size_at-apply_side}
use liqvera.Vwap.{buy, sweep_depth, depth_rejected, require_coin_unit_identity}
use liqvera.Vwap.Sweep.{Reads}
use liqvera.Vwap.Fills.{Offer, Rises, depth, paid}
use liqvera.Vwap.Theorems.{expected, sweep_depth-fills, sweep_depth-rejects, sweep_depth-optimal}
use liqvera.Tests.{ascii, ascii-IsUnicode, amount, fits}

-- A book: bids 99 and 98, asks 101 and 102, in whole units.
abbrev pub whole : ℕ → Decimal
whole n = record { coefficient = pos n; places = 0 }

abbrev pub level : ℕ → ℕ → BookLevel
level p s = record { price = whole p; quantity = whole s }

abbrev pub two_asks : List BookLevel
two_asks = level 101 2 ∷ level 102 5 ∷ []

abbrev pub snapshot : OrderBookSnapshot
snapshot = record {
  venue = codes "LIGHTER";
  symbol = codes "BTC";
  sequence = some (pos 7);
  exchange_timestamp_ms = pos 1000;
  received_timestamp_ms = pos 1010;
  bids = level 99 1 ∷ level 98 4 ∷ [];
  asks = two_asks;
}

snapshot-admitted : Market.admit snapshot ≡ ok snapshot
unfolding Market.admit Market.strictly_descending liqvera.Decimal.lt ◌*ℤ◌ Market.strictly_ascending
    Market.is_crossed liqvera.Decimal.le
snapshot-admitted = refl

abbrev pub perpetual : InstrumentIdentity
perpetual = record {
  base_asset = codes "BTC";
  quote_asset = codes "USD";
  product_kind = codes "perpetual";
  settlement_asset = codes "USDC";
  payoff_kind = codes "linear";
}

abbrev pub reviewed : MarketMappingEvidence
reviewed = record {
  mapping_id = codes "m1";
  mapping_version = codes "v1";
  decision = approved;
  venue = codes "LIGHTER";
  symbol = codes "BTC";
  identity = perpetual;
  evidence_sha256 = [];
  evidence_reference = codes "doc";
  valid_from_ms = 0;
  valid_until_ms = none;
  reviewed_contract_multiplier = whole 1;
  displayed_size_unit = codes "coin";
  quantity_step = whole 1;
  price_tick = none;
  price_decimals = none;
  max_price_significant_digits = none;
  min_quantity = none;
  min_notional = whole 0;
  lighter_market_index = some 1;
}

abbrev book : ReconstructedBook
book = record {
  snapshot = snapshot;
  envelope_index = 0;
  payload_sha256 = [];
  decoder_id = lighter_decoder_id;
  epoch_id = 0;
  mapping_id = some (codes "m1");
  mapping = some reviewed;
  channel = some (codes "order_book:1");
}

-- The asks, scaled.
abbrev offers : List Offer
offers = (10_100_000_000, 200_000_000) ∷ (10_200_000_000, 500_000_000) ∷ []

whole-read : (n : ℕ) → n < 1000 → from_decimal ascii (whole n) ≡ ok (amount (pos (n * 100_000_000)))
whole-read n h =
    let p = pos-*ℤ-pos n 100_000_000 in
    let r =
      from_decimal_exact ascii ascii-IsUnicode (pos n) 0 (omega arith)
        (rw p (fits (n * 100_000_000) (omega arith))) in
    r ∙ ap (λ z. ok (amount z)) p

identity-holds : require_coin_unit_identity (some reviewed) ≡ ok tt
unfolding require_coin_unit_identity liqvera.Python.str_eq liqvera.Decimal.eq ◌*ℤ◌
identity-holds = refl

asks-Reads : Reads ascii two_asks offers
asks-Reads = (
  whole-read 101 (omega arith),
  whole-read 2 (omega arith),
  omega arith,
  (whole-read 102 (omega arith), whole-read 5 (omega arith), omega arith, tt),
)

asks_deep : 300_000_000 ≤ depth offers
unfolding depth
asks_deep = omega arith

asks_shallow : depth offers < 800_000_000
unfolding depth
asks_shallow = omega arith

three-filled :
    sweep_depth ascii book buy (amount (pos 300_000_000))
    ≡ ok (expected book buy 300_000_000 offers)
three-filled =
    sweep_depth-fills ascii book buy 300_000_000 offers (omega arith) identity-holds asks-Reads
      asks_deep

-- Three units: two at 101 and one at 102.
sweep_depth-fills_example :
    sweep_depth ascii book buy (amount (pos 300_000_000))
    ≡ ok (expected book buy 300_000_000 offers)
sweep_depth-fills_example =
    sweep_depth-fills ascii book buy 300_000_000 offers (omega arith) identity-holds asks-Reads
      asks_deep

sweep_depth-rejects_example :
    sweep_depth ascii book buy (amount (pos 800_000_000)) ≡ err depth_rejected
sweep_depth-rejects_example =
    sweep_depth-rejects ascii book buy 800_000_000 offers (omega arith) identity-holds asks-Reads
      asks_shallow

offers-Rises : Rises offers
offers-Rises = ((omega arith, tt), (tt, tt))

-- One unit at 101 and two at 102 cost no less.
sweep_depth-optimal_example :
    (expected book buy 300_000_000 offers).notional_quote.numerator
    ≤ℤ pos (paid (100_000_000 ∷ 200_000_000 ∷ []) offers)
sweep_depth-optimal_example =
    sweep_depth-optimal ascii book 300_000_000 offers {fill = expected book buy 300_000_000 offers}
      (omega arith) identity-holds asks-Reads offers-Rises three-filled
      (100_000_000 ∷ 200_000_000 ∷ []) (omega arith, (omega arith, tt)) (omega arith)

delta-set :
    apply_side two_asks ((whole 101, whole 0) ∷ (whole 103, whole 9) ∷ [])
    ≡ ok (level 102 5 ∷ level 103 9 ∷ [])
unfolding apply_side liqvera.Reconstruction.Levels.apply_delta liqvera.Decimal.eq ◌*ℤ◌
    Market.book_level liqvera.Decimal.le liqvera.Reconstruction.Levels.replace_or_append
    liqvera.Reconstruction.Levels.without
delta-set = refl

size_at-apply_side_example :
    size_at (whole 103) (level 102 5 ∷ level 103 9 ∷ [])
    ≡ foldl
        (said (whole 103))
        (size_at (whole 103) two_asks)
        ((whole 101, whole 0) ∷ (whole 103, whole 9) ∷ [])
size_at-apply_side_example =
    size_at-apply_side (whole 103) two_asks ((whole 101, whole 0) ∷ (whole 103, whole 9) ∷ [])
      {levels' = level 102 5 ∷ level 103 9 ∷ []} delta-set

admit_iff_example : (Market.admit snapshot ≡ ok snapshot) ↔ IsBook snapshot
admit_iff_example = admit_iff snapshot
