-- ===== src/Provenance/Covering.antt =====
-- What `validate_mapping_pair` lets through.
use liqvera.Prelude.{both, ◌≡◌, ◌≢◌, true, not, some}
use liqvera.Prelude.Int.{ℤ, pos, ◌≤ℤ◌}
use liqvera.Python.{Str, str_eq, str_eq_iff}
use liqvera.Market.Venue.{VenueMarket}
use liqvera.Market.Discovery.{same_identity-eq}
use liqvera.Provenance.{MarketMappingEvidence, approved}
use liqvera.Provenance.Current.{
  IsCurrent, IsNumber, IsOptionalNumber, IsOptionalCount, is_approved-eq, leb_ℤ-le,
  is_current-IsCurrent, same_number-IsNumber, same_optional_number-IsOptionalNumber,
  same_optional_count-IsOptionalCount,
}
use liqvera.Provenance.Pairs.{same_market, valid_for, validate_mapping_pair}

-- The mapping states the market's terms, and is approved and current.
pub record Covers (m : MarketMappingEvidence) (market : VenueMarket) (t : ℤ) : Type 0 where
  pub time : pos 0 ≤ℤ t
  pub decision : m.decision ≡ approved
  pub current : IsCurrent m t
  pub venue : m.venue ≡ market.venue
  pub symbol : m.symbol ≡ market.symbol
  pub identity : m.identity ≡ market.identity
  pub unit : m.displayed_size_unit ≡ market.displayed_size_unit
  pub multiplier : IsNumber m.reviewed_contract_multiplier market.contract_multiplier
  pub step : IsNumber m.quantity_step market.quantity_step
  pub tick : IsOptionalNumber m.price_tick market.price_tick
  pub places : IsOptionalCount m.price_decimals market.price_decimals
  pub digits : IsOptionalCount m.max_price_significant_digits market.max_price_significant_digits
  pub quantity : IsOptionalNumber m.min_quantity market.min_quantity
  pub notional : IsNumber m.min_notional market.min_notional

differ : (x y : Str) → not (str_eq x y) ≡ true → x ≢ y
differ x y h e = let t = (str_eq_iff x y).1 e in let k = rw t at h in cc

valid_for-Covers :
    (m : MarketMappingEvidence) (market : VenueMarket) (t : ℤ)
    → valid_for m market t ≡ true
    → Covers m market t
unfolding valid_for same_market
valid_for-Covers m market t h =
    let (e0, h0) = both h in
    let (e1, h1) = both h0 in
    let (e2, h2) = both h1 in
    let (e3, h3) = both h2 in
    let (e4, h4) = both h3 in
    let (e5, h5) = both h4 in
    let (e6, h6) = both h5 in
    let (e7, h7) = both h6 in
    let (e8, h8) = both h7 in
    let (e9, h9) = both h8 in
    let (e10, h10) = both h9 in
    let (e11, h11) = both h10 in
    let (e12, e13) = both h11 in
    record {
      time = leb_ℤ-le (pos 0) t e0;
      decision = is_approved-eq m.decision e1;
      current = is_current-IsCurrent m t e2;
      venue = (str_eq_iff m.venue market.venue).0 e3;
      symbol = (str_eq_iff m.symbol market.symbol).0 e4;
      identity = same_identity-eq m.identity market.identity e5;
      multiplier =
          same_number-IsNumber m.reviewed_contract_multiplier market.contract_multiplier e6;
      unit = (str_eq_iff m.displayed_size_unit market.displayed_size_unit).0 e7;
      step = same_number-IsNumber m.quantity_step market.quantity_step e8;
      tick = same_optional_number-IsOptionalNumber m.price_tick market.price_tick e9;
      places = same_optional_count-IsOptionalCount m.price_decimals market.price_decimals e10;
      digits =
          same_optional_count-IsOptionalCount m.max_price_significant_digits
            market.max_price_significant_digits e11;
      quantity = same_optional_number-IsOptionalNumber m.min_quantity market.min_quantity e12;
      notional = same_number-IsNumber m.min_notional market.min_notional e13;
    }

-- Where validate_mapping_pair holds of two mappings and two markets, the mapping ids differ, the
-- time is not negative, and of each mapping: its decision is APPROVED, the time is not before
-- valid_from_ms and not after valid_until_ms where that is given, its venue, symbol, identity and
-- size unit are the market's, and the market's multiplier, size step, price tick, minimum quantity
-- and minimum notional are finite and have its values, as the two counts of the price rule do.
pub validate_mapping_pair-Covers :
    (t : ℤ) (buy_market : VenueMarket) (buy : MarketMappingEvidence) (sell_market : VenueMarket)
    (sell : MarketMappingEvidence)
    → (validate_mapping_pair t buy_market (some buy) sell_market (some sell) ≡ true)
    → (buy.mapping_id ≢ sell.mapping_id) × Covers buy buy_market t × Covers sell sell_market t
unfolding validate_mapping_pair
validate_mapping_pair-Covers t buy_market buy sell_market sell h =
    let (apart, rest) = both h in
    let (first, second) = both rest in
    (
      differ buy.mapping_id sell.mapping_id apart,
      valid_for-Covers buy buy_market t first,
      valid_for-Covers sell sell_market t second,
    )
