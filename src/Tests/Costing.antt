-- ===== src/Tests/Costing.antt =====
-- The entry costs of two legs, with one documented cost beside the fees.
use liqvera.Prelude.{List, [], ◌∷◌, some}
use liqvera.Prelude.Int.{pos}
use liqvera.Python.{Str, codes}
use liqvera.Decimal.{finite}
use liqvera.Exact.Fraction.{Fraction}
use liqvera.Provenance.Costs.{
  taker, exact_quote, FeeEvidence, CostComponent, EntryCostModel, ExactEntryCosts, no_cost,
}
use liqvera.Tests.Frozen.{one, toy_sha256}

abbrev fee : Str → FeeEvidence
fee venue = record {
  venue = venue;
  liquidity_role = taker;
  fee_rate_bps = some (finite (record { coefficient = pos 35; places = 1 }));
  fee_currency = some (codes "USD");
  fee_tier = some (codes "base");
  fee_scenario = some (codes "taker");
  schedule_as_of_ms = some (pos 5);
  schedule_sha256 = some (toy_sha256 []);
  rounding_rule = some exact_quote;
  minimum_fee_quote = some (finite one);
}

abbrev gas : CostComponent
gas = record {
  component_type = codes "GAS";
  amount_quote = some (finite one);
  currency = some (codes "USD");
  model_version = some (codes "documented-entry-cost/v1");
  as_of_ms = some (pos 6);
  evidence_sha256 = some (toy_sha256 []);
}

abbrev model : EntryCostModel
model = record {
  model_version = codes "displayed-taker-entry-cost/v1";
  buy_fee = fee (codes "LIGHTER");
  sell_fee = fee (codes "HYPERLIQUID");
  additional_costs = gas ∷ [];
}

abbrev whole : Fraction
whole = record { numerator = pos 1; denominator = 1 }

abbrev large : Fraction
large = record { numerator = pos 10_000; denominator = 1 }

abbrev small : Fraction
small = record { numerator = pos 3; denominator = 2 }

abbrev costs : ExactEntryCosts
costs = record {
  buy_fee_quote = record { numerator = pos 350_000; denominator = 100_000 };
  sell_fee_quote = whole;
  additional_cost_quote = whole;
}
