-- ===== src/Provenance/Costs.antt =====
-- The entry costs of two legs: `calculate_entry_costs` with the records it reads, packages/contracts/src/
-- liqvera_contracts/provenance.py, and `fraction_from_decimal` of exact.py beside it. A Fraction is
-- kept as it was computed, without taking out common factors: it is compared by its value.
use liqvera.Prelude.{
  ◌*◌, ◌^◌, Bool, true, false, ◌&&◌, ◌||◌, List, [], ◌∷◌, Option, none, some, if◌then◌else◌,
}
use liqvera.Prelude.Int.{ℤ, pos, ◌*ℤ◌, ◌+ℤ◌, leb_ℤ}
use liqvera.Python.{Str, codes, str_eq, is_sha256}
use liqvera.Decimal.{Decimal, Number, finite, le, nought}
use liqvera.Exact.Fraction.{Fraction}
use liqvera.Provenance.{nonempty_ascii}

-- `fraction_from_decimal`
abbrev pub fraction_from_decimal : Decimal → Fraction
fraction_from_decimal d = record { numerator = d.coefficient; denominator = 10 ^ d.places }

-- `<=` of two fractions
unfoldable pub fraction_le : Fraction → Fraction → Bool
fraction_le x y = leb_ℤ (x.numerator *ℤ pos y.denominator) (y.numerator *ℤ pos x.denominator)

abbrev pub fraction_max : Fraction → Fraction → Fraction
fraction_max x y = if fraction_le y x then x else y

unfoldable pub fraction_add : Fraction → Fraction → Fraction
fraction_add x y = record {
  numerator = x.numerator *ℤ pos y.denominator +ℤ y.numerator *ℤ pos x.denominator;
  denominator = x.denominator * y.denominator;
}

-- `notional * rate / 10_000`
unfoldable pub rate_of : Fraction → Fraction → Fraction
rate_of notional rate = record {
  numerator = notional.numerator *ℤ rate.numerator;
  denominator = notional.denominator * rate.denominator * 10_000;
}

-- The two enumerations have one member each.
pub data LiquidityRole : Type 0 where
  taker : LiquidityRole

pub data FeeRoundingRule : Type 0 where
  exact_quote : FeeRoundingRule

pub record FeeEvidence : Type 0 where
  pub venue : Str
  pub liquidity_role : LiquidityRole
  pub fee_rate_bps : Option Number
  pub fee_currency : Option Str
  pub fee_tier : Option Str
  pub fee_scenario : Option Str
  pub schedule_as_of_ms : Option ℤ
  pub schedule_sha256 : Option Str
  pub rounding_rule : Option FeeRoundingRule
  pub minimum_fee_quote : Option Number

pub record CostComponent : Type 0 where
  pub component_type : Str
  pub amount_quote : Option Number
  pub currency : Option Str
  pub model_version : Option Str
  pub as_of_ms : Option ℤ
  pub evidence_sha256 : Option Str

pub record EntryCostModel : Type 0 where
  pub model_version : Str
  pub buy_fee : FeeEvidence
  pub sell_fee : FeeEvidence
  pub additional_costs : List CostComponent

pub record ExactEntryCosts : Type 0 where
  pub buy_fee_quote : Fraction
  pub sell_fee_quote : Fraction
  pub additional_cost_quote : Fraction

abbrev pub given_text : (Str → Bool) → Option Str → Bool
given_text test none = false
given_text test (some s) = test s

-- `_nonempty_ascii(value) and value == text`
abbrev pub names_text : Str → Option Str → Bool
names_text s value = given_text (λ v. nonempty_ascii v && str_eq v s) value

-- `_nonnegative_decimal`, with the decimal
unfoldable pub nonnegative_decimal : Option Number → Option Decimal
nonnegative_decimal (some (finite d)) = if le nought d then some d else none
nonnegative_decimal _ = none

-- `_is_timestamp(value) and value <= evaluated_at_ms`
abbrev pub is_dated : ℤ → Option ℤ → Bool
is_dated evaluated_at_ms none = false
is_dated evaluated_at_ms (some z) = leb_ℤ (pos 0) z && leb_ℤ z evaluated_at_ms

abbrev pub is_exact : Option FeeRoundingRule → Bool
is_exact none = false
is_exact (some exact_quote) = true

-- The tests of `_fee_cost` that are not on its two decimals
unfoldable pub is_complete : FeeEvidence → Str → Str → ℤ → Bool
is_complete e venue quote_currency evaluated_at_ms =
    nonempty_ascii e.venue
    && (str_eq e.venue venue
        && (names_text quote_currency e.fee_currency
            && (is_exact e.rounding_rule
                && (given_text nonempty_ascii e.fee_tier
                    && (given_text nonempty_ascii e.fee_scenario
                        && (is_dated evaluated_at_ms e.schedule_as_of_ms
                            && given_text is_sha256 e.schedule_sha256))))))

-- The fee, where both decimals can be used
abbrev pub fee_of : Fraction → Option Decimal → Option Decimal → Option Fraction
fee_of notional (some rate) (some minimum) =
    some
      (fraction_max (rate_of notional (fraction_from_decimal rate)) (fraction_from_decimal minimum))
fee_of notional _ _ = none

-- `_fee_cost`
unfoldable pub fee_cost : FeeEvidence → Str → Str → ℤ → Fraction → Option Fraction
fee_cost e venue quote_currency evaluated_at_ms notional =
    if is_complete e venue quote_currency evaluated_at_ms
    then fee_of notional (nonnegative_decimal e.fee_rate_bps)
        (nonnegative_decimal e.minimum_fee_quote)
    else none

-- `(component_type, model_version) in SUPPORTED_ADDITIONAL_COST_COMPONENTS`
unfoldable pub is_supported : Str → Str → Bool
is_supported component_type model_version =
    str_eq component_type (codes "GAS") && str_eq model_version (codes "documented-entry-cost/v1")
    || str_eq component_type (codes "ENTRY_STRESS")
      && str_eq model_version (codes "synthetic-entry-stress/v1")

-- The tests on a component that are not on its amount
unfoldable pub is_usable : CostComponent → Str → ℤ → Bool
is_usable c quote_currency evaluated_at_ms =
    nonempty_ascii c.component_type
    && (names_text quote_currency c.currency
        && (given_text (λ v. nonempty_ascii v && is_supported c.component_type v) c.model_version
            && (is_dated evaluated_at_ms c.as_of_ms && given_text is_sha256 c.evidence_sha256)))

-- The amount of a component, where it can be used
unfoldable pub amount_of : CostComponent → Str → ℤ → Option Decimal
amount_of c quote_currency evaluated_at_ms =
    if is_usable c quote_currency evaluated_at_ms then nonnegative_decimal c.amount_quote else none

-- The loop of `_additional_cost`
unfoldable pub add_costs : Str → ℤ → Fraction → List CostComponent → Option Fraction
add_costs quote_currency evaluated_at_ms result [] = some result
add_costs quote_currency evaluated_at_ms result (c ∷ components) =
    elim (amount_of c quote_currency evaluated_at_ms) [
      | none ↦ none
      | some amount ↦
          add_costs quote_currency evaluated_at_ms
            (fraction_add result (fraction_from_decimal amount)) components
    ]

-- `Fraction()`
abbrev pub no_cost : Fraction
no_cost = record { numerator = pos 0; denominator = 1 }

-- `_additional_cost`
abbrev pub additional_cost : List CostComponent → Str → ℤ → Option Fraction
additional_cost components quote_currency evaluated_at_ms =
    add_costs quote_currency evaluated_at_ms no_cost components

-- The last test of `calculate_entry_costs`
abbrev pub all_of : Option Fraction → Option Fraction → Option Fraction → Option ExactEntryCosts
all_of (some buy) (some sell) (some additional) =
    some (record { buy_fee_quote = buy; sell_fee_quote = sell; additional_cost_quote = additional })
all_of _ _ _ = none

abbrev pub is_nonnegative : Fraction → Bool
is_nonnegative x = leb_ℤ (pos 0) x.numerator

-- The tests on the arguments
unfoldable pub is_priced_call : EntryCostModel → ℤ → Str → Str → Str → Fraction → Fraction → Bool
is_priced_call m evaluated_at_ms quote_currency buy_venue sell_venue buy_notional sell_notional =
    str_eq m.model_version (codes "displayed-taker-entry-cost/v1")
    && (leb_ℤ (pos 0) evaluated_at_ms
        && (nonempty_ascii quote_currency
            && (nonempty_ascii buy_venue
                && (nonempty_ascii sell_venue
                    && (is_nonnegative buy_notional && is_nonnegative sell_notional)))))

-- `calculate_entry_costs`
unfoldable pub calculate_entry_costs :
    EntryCostModel → ℤ → Str → Str → Str → Fraction → Fraction → Option ExactEntryCosts
calculate_entry_costs m evaluated_at_ms quote_currency buy_venue sell_venue buy_notional
      sell_notional =
    if is_priced_call m evaluated_at_ms quote_currency buy_venue sell_venue buy_notional
      sell_notional
    then all_of (fee_cost m.buy_fee buy_venue quote_currency evaluated_at_ms buy_notional)
        (fee_cost m.sell_fee sell_venue quote_currency evaluated_at_ms sell_notional)
        (additional_cost m.additional_costs quote_currency evaluated_at_ms)
    else none
