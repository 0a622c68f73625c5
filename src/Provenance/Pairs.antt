-- ===== src/Provenance/Pairs.antt =====
-- Whether a reviewed mapping covers a market: `valid_for` and `validate_mapping_pair` of
-- packages/contracts/src/liqvera_contracts/provenance.py.
use liqvera.Prelude.{ℕ, Bool, true, false, not, ◌&&◌, Option, none, some, ◌==◌}
use liqvera.Prelude.Int.{ℤ, pos, leb_ℤ}
use liqvera.Python.{str_eq}
use liqvera.Decimal.{Decimal, Number, finite, eq}
use liqvera.Market.Venue.{VenueMarket}
use liqvera.Market.Common.{same_identity}
use liqvera.Provenance.{MarketMappingEvidence, is_approved, is_current}

-- `==` of a finite decimal and another
unfoldable pub same_number : Decimal → Number → Bool
same_number d (finite e) = eq d e
same_number d _ = false

unfoldable pub same_optional_number : Option Decimal → Option Number → Bool
unfolding same_number
same_optional_number none none = true
same_optional_number (some d) (some x) = same_number d x
same_optional_number _ _ = false

unfoldable pub same_optional_count : Option ℕ → Option ℤ → Bool
same_optional_count none none = true
same_optional_count (some n) (some (pos k)) = n == k
same_optional_count _ _ = false

-- The comparison field by field.
unfoldable pub same_market : MarketMappingEvidence → VenueMarket → Bool
same_market m market =
    str_eq m.venue market.venue
    && (str_eq m.symbol market.symbol
        && (same_identity m.identity market.identity
            && (same_number m.reviewed_contract_multiplier market.contract_multiplier
                && (str_eq m.displayed_size_unit market.displayed_size_unit
                    && (same_number m.quantity_step market.quantity_step
                        && (same_optional_number m.price_tick market.price_tick
                            && (same_optional_count m.price_decimals market.price_decimals
                                && (same_optional_count m.max_price_significant_digits
                                      market.max_price_significant_digits
                                    && (same_optional_number m.min_quantity market.min_quantity
                                        && same_number m.min_notional market.min_notional)))))))))

-- `valid_for`
unfoldable pub valid_for : MarketMappingEvidence → VenueMarket → ℤ → Bool
valid_for m market evaluated_at_ms =
    leb_ℤ (pos 0) evaluated_at_ms
    && (is_approved m.decision && (is_current m evaluated_at_ms && same_market m market))

-- `validate_mapping_pair`
unfoldable pub validate_mapping_pair :
    ℤ
    → VenueMarket
    → Option MarketMappingEvidence
    → VenueMarket
    → Option MarketMappingEvidence
    → Bool
validate_mapping_pair t buy_market (some buy) sell_market (some sell) =
    not (str_eq buy.mapping_id sell.mapping_id)
    && (valid_for buy buy_market t && valid_for sell sell_market t)
validate_mapping_pair t buy_market _ sell_market _ = false
