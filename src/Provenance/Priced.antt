-- ===== src/Provenance/Priced.antt =====
-- What the entry costs say.
use liqvera.Prelude.{ℕ, ◌≡◌, ◌⊎◌, true, List, [], ◌∷◌, All, Option, some}
use liqvera.Prelude.Int.{ℤ, pos, ◌≤ℤ◌}
use liqvera.Python.{Str, codes, is_sha256}
use liqvera.Decimal.{Decimal, finite, le, nought}
use liqvera.Exact.Fraction.{Fraction}
use liqvera.Provenance.{nonempty_ascii}
use liqvera.Provenance.Costs.{
  exact_quote, fraction_from_decimal, fraction_le, fraction_add, rate_of, FeeEvidence,
  CostComponent, EntryCostModel, ExactEntryCosts, no_cost,
}

-- The time is given, not negative, and no later than the evaluation.
pub record IsDated (evaluated_at_ms : ℤ) (o : Option ℤ) : Type 0 where
  pub at : ℕ
  pub given : o ≡ some (pos at)
  pub no_later : pos at ≤ℤ evaluated_at_ms

-- The value is given, and has the property.
pub data IsGiven (P : Str → Type 0) : Option Str → Type 0 where
  given : {s : Str} → P s → IsGiven P (some s)

-- The kinds of additional cost, with the version of the model of each
pub data IsDocumented : Str → Str → Type 0 where
  is_gas : IsDocumented (codes "GAS") (codes "documented-entry-cost/v1")
  is_stress : IsDocumented (codes "ENTRY_STRESS") (codes "synthetic-entry-stress/v1")

-- An additional cost that counts
pub record IsCost (c : CostComponent) (quote_currency : Str) (evaluated_at_ms : ℤ) : Type 0 where
  pub currency : c.currency ≡ some quote_currency
  pub documented : IsGiven (IsDocumented c.component_type) c.model_version
  pub dated : IsDated evaluated_at_ms c.as_of_ms
  pub digest : IsGiven (λ s. is_sha256 s ≡ true) c.evidence_sha256
  pub amount : Decimal
  pub priced : c.amount_quote ≡ some (finite amount)
  pub nonnegative : le nought amount ≡ true

-- The amounts, added in their order to what is there
pub data AddsUp : Fraction → List CostComponent → Fraction → Type 0 where
  no_more : {sum : Fraction} → AddsUp sum [] sum
  one_more :
      {sum total : Fraction} {c : CostComponent} {components : List CostComponent} (d : Decimal)
      → c.amount_quote ≡ some (finite d)
      → AddsUp (fraction_add sum (fraction_from_decimal d)) components total
      → AddsUp sum (c ∷ components) total

-- The fee is the greater of the rate's share of the notional and the minimum.
pub record IsFee (e : FeeEvidence) (venue quote_currency : Str) (evaluated_at_ms : ℤ)
    (notional fee : Fraction) : Type 0 where
  pub venue_matches : e.venue ≡ venue
  pub currency : e.fee_currency ≡ some quote_currency
  pub rounding : e.rounding_rule ≡ some exact_quote
  pub dated : IsDated evaluated_at_ms e.schedule_as_of_ms
  pub tier : IsGiven (λ s. nonempty_ascii s ≡ true) e.fee_tier
  pub scenario : IsGiven (λ s. nonempty_ascii s ≡ true) e.fee_scenario
  pub digest : IsGiven (λ s. is_sha256 s ≡ true) e.schedule_sha256
  pub rate : Decimal
  pub minimum : Decimal
  pub rated : (e.fee_rate_bps ≡ some (finite rate)) × (le nought rate ≡ true)
  pub limited : (e.minimum_fee_quote ≡ some (finite minimum)) × (le nought minimum ≡ true)
  pub covers_rate : fraction_le (rate_of notional (fraction_from_decimal rate)) fee ≡ true
  pub covers_minimum : fraction_le (fraction_from_decimal minimum) fee ≡ true
  pub least :
      (fee ≡ rate_of notional (fraction_from_decimal rate)) ⊎ (fee ≡ fraction_from_decimal minimum)

pub record IsPriced (m : EntryCostModel) (evaluated_at_ms : ℤ)
    (quote_currency buy_venue sell_venue : Str) (buy_notional sell_notional : Fraction)
    (costs : ExactEntryCosts) : Type 0 where
  pub buy :
      IsFee m.buy_fee buy_venue quote_currency evaluated_at_ms buy_notional costs.buy_fee_quote
  pub sell :
      IsFee m.sell_fee sell_venue quote_currency evaluated_at_ms sell_notional costs.sell_fee_quote
  pub usable : All (λ c. IsCost c quote_currency evaluated_at_ms) m.additional_costs
  pub total : AddsUp no_cost m.additional_costs costs.additional_cost_quote
