-- ===== src/Tests/Troves.antt =====
-- A trove below its minimum ratio.
use liqvera.Prelude.{ℕ, ◌≡◌, refl, true, [], ◌∷◌, some, ok}
use liqvera.Prelude.Int.{pos, negsuc}
use liqvera.Amm.Trove.{Trove, TroveRisk, Scenario, liquidatable, is_liquidatable, trove_risk}
use liqvera.Amm.Liquidation.{IsAssessed, trove_risk-IsAssessed}

abbrev short : Trove
short = record {
  collateral = pos 10;
  principal = pos 70;
  interest = pos 10;
  price = pos 8;
  mcr = pos 2;
  ccr = pos 3;
  tcr = pos 3;
  status = pos 1;
}

abbrev nothing_left : ℕ → ℕ → Scenario
nothing_left reduction price = record {
  reduction = reduction;
  scenario_price = price;
  scenario_icr = some 0;
  status = is_liquidatable;
}

abbrev assessed : TroveRisk
assessed = record {
  active = true;
  contract_status = 1;
  debt = 80;
  collateral = 10;
  price = 8;
  icr = 1;
  mcr = 2;
  ccr = 3;
  tcr = 3;
  threshold = some (pos 160, 10_000_000_000_000_000_000);
  buffer = some (negsuc 7_999_999_999_999_999_999_999, 160_000_000_000_000_000_000);
  flags = liquidatable ∷ [];
  scenarios = nothing_left 10 7 ∷ nothing_left 20 6 ∷ nothing_left 30 5 ∷ [];
}

risk-assessed : trove_risk short ≡ ok assessed
unfolding trove_risk liqvera.Amm.Trove.require_trove liqvera.Amm.Trove.assess
    liqvera.Amm.Trove.ratio liqvera.Amm.Trove.threshold_of liqvera.Amm.Trove.buffer_of
    liqvera.Amm.Trove.flags_of liqvera.Amm.Trove.scenario_of
risk-assessed = refl

trove_risk-IsAssessed_example : IsAssessed short assessed
trove_risk-IsAssessed_example = trove_risk-IsAssessed short refl risk-assessed
