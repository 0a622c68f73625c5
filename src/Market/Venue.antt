-- ===== src/Market/Venue.antt =====
-- `VenueMarket` of packages/contracts/src/liqvera_contracts/market.py. Its constructor changes
-- nothing, so that the record is also what the constructor is called with.
use liqvera.Prelude.{
  Bool, true, false, not, ◌&&◌, ◌||◌, List, [], ◌∷◌, Option, none, some, Result, ok, err, ◌>>=◌,
  ◌>>◌, raise_if, all,
}
use liqvera.Prelude.Int.{ℤ, pos, ltb_ℤ, leb_ℤ}
use liqvera.Python.{Str, Raised, value_error, invalid_operation, is_empty}
use liqvera.Decimal.{Number, finite, infinity, minus_infinity, nan, le, nought}
use liqvera.Market.{InstrumentIdentity}

pub record VenueMarket : Type 0 where
  pub venue : Str
  pub symbol : Str
  pub identity : InstrumentIdentity
  pub contract_multiplier : Number
  pub displayed_size_unit : Str
  pub quantity_step : Number
  pub price_tick : Option Number
  pub min_notional : Number
  pub equivalence_evidence : Str
  pub price_decimals : Option ℤ
  pub max_price_significant_digits : Option ℤ
  pub min_quantity : Option Number

-- `value.is_finite()`
abbrev pub is_finite : Number → Bool
is_finite (finite d) = true
is_finite _ = false

-- `value <= Decimal("0")`, which a NaN refuses
unfoldable pub at_most_nought : Number → Result Raised Bool
at_most_nought (finite d) = ok (le d nought)
at_most_nought infinity = ok false
at_most_nought minus_infinity = ok true
at_most_nought nan = err invalid_operation

-- The tests on an optional decimal. That it is finite is not among them.
unfoldable pub require_optional_positive : Option Number → Result Raised (Unit {0})
require_optional_positive none = ok tt
require_optional_positive (some x) = do low ← at_most_nought x; raise_if low value_error

-- `any(value <= Decimal("0") for value in values)`, of finite values
unfoldable pub any_at_most_nought : List Number → Result Raised Bool
any_at_most_nought [] = ok false
any_at_most_nought (x ∷ values) = do
  low ← at_most_nought x
  rest ← any_at_most_nought values
  ok (low || rest)

abbrev pub is_given {ℓ} : {A : Type ℓ} → Option A → Bool
is_given none = false
is_given (some a) = true

-- `value is not None and test(value)`
abbrev pub given_and : (ℤ → Bool) → Option ℤ → Bool
given_and test none = false
given_and test (some z) = test z

abbrev pub positive_fields : VenueMarket → List Number
positive_fields m = m.contract_multiplier ∷ m.quantity_step ∷ m.min_notional ∷ []

-- `__post_init__`
unfoldable pub venue_market : VenueMarket → Result Raised VenueMarket
venue_market m = do
  raise_if (is_empty m.displayed_size_unit) value_error
  raise_if (not (all is_finite (positive_fields m))) value_error
  low ← any_at_most_nought (positive_fields m)
  raise_if low value_error
  require_optional_positive m.price_tick
  require_optional_positive m.min_quantity
  raise_if (given_and (λ z. ltb_ℤ z (pos 0)) m.price_decimals) value_error
  raise_if (given_and (λ z. leb_ℤ z (pos 0)) m.max_price_significant_digits) value_error
  raise_if
      (not (is_given m.price_tick)
        && not (is_given m.price_decimals)
        && not (is_given m.max_price_significant_digits))
      value_error
  ok m
