-- ===== src/Tests/Pairs.antt =====
-- Two mappings that cover two markets, and markets in common.
use liqvera.Prelude.{
  ℕ, ◌≤◌, ◌≡◌, ◌≢◌, refl, true, false, List, [], ◌∷◌, Option, none, some, All, ok,
}
use liqvera.Prelude.Int.{ℤ, pos}
use liqvera.Python.{Str, codes, str_eq}
use liqvera.Decimal.{finite}
use liqvera.Market.Venue.{VenueMarket}
use liqvera.Market.Common.{CommonMarket, discover_common_markets}
use liqvera.Market.Discovery.{IsCommon, discover_common_markets-IsCommon}
use liqvera.Provenance.{MarketMappingEvidence}
use liqvera.Provenance.Pairs.{validate_mapping_pair}
use liqvera.Provenance.Covering.{Covers, validate_mapping_pair-Covers}
use liqvera.Tests.{ascii}
use liqvera.Tests.Frozen.{one}
use liqvera.Tests.Opening.{toy_evidence}

abbrev market : Str → VenueMarket
market venue = record {
  venue = venue;
  symbol = codes "BTC";
  identity = toy_evidence.identity;
  contract_multiplier = finite one;
  displayed_size_unit = codes "BTC";
  quantity_step = finite one;
  price_tick = some (finite one);
  min_notional = finite one;
  equivalence_evidence = codes "ref";
  price_decimals = none;
  max_price_significant_digits = some (pos 5);
  min_quantity = none;
}

abbrev other_evidence : MarketMappingEvidence
other_evidence = record toy_evidence { mapping_id = codes "m2"; venue = codes "hyperliquid" }

pair-validates :
    validate_mapping_pair
      (pos 7)
      (market (codes "lighter"))
      (some toy_evidence)
      (market (codes "hyperliquid"))
      (some other_evidence)
    ≡ true
unfolding validate_mapping_pair str_eq liqvera.Provenance.Pairs.valid_for
    liqvera.Provenance.is_current liqvera.Provenance.Pairs.same_market
    liqvera.Market.Common.same_identity liqvera.Provenance.Pairs.same_number liqvera.Decimal.eq
    liqvera.Prelude.Int.◌*ℤ◌ liqvera.Provenance.Pairs.same_optional_number
    liqvera.Provenance.Pairs.same_optional_count
pair-validates = refl

validate_mapping_pair-Covers_example :
    (codes "m1" ≢ codes "m2")
    × Covers toy_evidence (market (codes "lighter")) (pos 7)
    × Covers other_evidence (market (codes "hyperliquid")) (pos 7)
validate_mapping_pair-Covers_example =
    validate_mapping_pair-Covers (pos 7) (market (codes "lighter")) toy_evidence
      (market (codes "hyperliquid")) other_evidence pair-validates

abbrev two_markets : List VenueMarket
two_markets = market (codes "lighter") ∷ market (codes "hyperliquid") ∷ []

abbrev in_common : CommonMarket
in_common = record {
  identity = toy_evidence.identity;
  markets = market (codes "hyperliquid") ∷ market (codes "lighter") ∷ [];
}

one-discovered : discover_common_markets ascii two_markets 2 ≡ ok (in_common ∷ [])
unfolding discover_common_markets liqvera.Market.Common.group liqvera.Python.strip
    liqvera.Market.Common.add_market liqvera.Market.Common.same_identity str_eq
    liqvera.Market.Common.sorted_by liqvera.Market.Common.common_of liqvera.Market.Common.insert_by
    liqvera.Market.Common.str_lt
one-discovered = refl

discover_common_markets-IsCommon_example : (2 ≤ 2) × All (IsCommon ascii 2) (in_common ∷ [])
discover_common_markets-IsCommon_example =
    discover_common_markets-IsCommon ascii two_markets 2 one-discovered
