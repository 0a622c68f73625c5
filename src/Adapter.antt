-- ===== src/Adapter.antt =====
-- What the two public adapters of packages/public-capture/src/liqvera_public_capture/public_adapters/
-- share: the markets that were discovered, by their symbols, and the reviewed mapping of a market.
pub mod Details
pub mod Lighter
pub mod Hyperliquid
pub mod Kept
pub mod Channel
pub mod Served
pub mod Live
pub mod Quoted
use liqvera.Prelude.{
  Bool, true, false, ◌&&◌, List, [], ◌∷◌, Option, none, some, Result, ok, err, ◌>>=◌, ◌>>◌,
  raise_if, if◌then◌else◌,
}
use liqvera.Prelude.Int.{ℤ, eqb_ℤ}
use liqvera.Python.{Str, Raised, value_error, Unicode, is_empty, strip, str_eq}
use liqvera.Decimal.{Number, finite, infinity, minus_infinity, nan, eq}
use liqvera.Market.{InstrumentIdentity}
use liqvera.Market.Venue.{VenueMarket, at_most_nought}
use liqvera.Market.Common.{same_identity}

-- `_KnownMarket` of either adapter; the index is `asset_index` or `market_index`.
pub record KnownMarket : Type 0 where
  pub index : ℤ
  pub market : VenueMarket

-- A dictionary by symbol, in the order of its first assignments
abbrev pub Dict {ℓ} : Type ℓ → Type ℓ
Dict A = List (Str × A)

unfoldable pub lookup {ℓ} : {A : Type ℓ} → Str → Dict A → Option A
lookup key [] = none
lookup key ((k, a) ∷ d) = let later = lookup key d in if str_eq k key then some a else later

unfoldable pub assign {ℓ} : {A : Type ℓ} → Str → A → Dict A → Dict A
assign key a [] = (key, a) ∷ []
assign key a ((k, b) ∷ d) =
    let later = assign key a d in if str_eq k key then (k, a) ∷ d else (k, b) ∷ later

-- `==` on two decimals
unfoldable pub number_eq : Number → Number → Bool
number_eq (finite d) (finite e) = eq d e
number_eq infinity infinity = true
number_eq minus_infinity minus_infinity = true
number_eq _ _ = false

abbrev pub optional_eq {ℓ} : {A : Type ℓ} → (A → A → Bool) → Option A → Option A → Bool
optional_eq same none none = true
optional_eq same (some a) (some b) = same a b
optional_eq same _ _ = false

-- `==` on two `VenueMarket`s, none of which holds a NaN
unfoldable pub market_eq : VenueMarket → VenueMarket → Bool
market_eq m n =
    str_eq m.venue n.venue
    && (str_eq m.symbol n.symbol
        && (same_identity m.identity n.identity
            && (number_eq m.contract_multiplier n.contract_multiplier
                && (str_eq m.displayed_size_unit n.displayed_size_unit
                    && (number_eq m.quantity_step n.quantity_step
                        && (optional_eq number_eq m.price_tick n.price_tick
                            && (number_eq m.min_notional n.min_notional
                                && (str_eq m.equivalence_evidence n.equivalence_evidence
                                    && (optional_eq eqb_ℤ m.price_decimals n.price_decimals
                                        && (optional_eq eqb_ℤ m.max_price_significant_digits
                                              n.max_price_significant_digits
                                            && optional_eq number_eq m.min_quantity
                                                n.min_quantity))))))))))

-- `known is None or known.market != market`
unfoldable pub is_known : VenueMarket → Option KnownMarket → Result Raised KnownMarket
is_known market none = err value_error
is_known market (some k) = if market_eq k.market market then ok k else err value_error

-- `_require_market`
unfoldable pub require_market : Str → Dict KnownMarket → VenueMarket → Result Raised KnownMarket
require_market venue known market =
    if str_eq market.venue venue
    then is_known market (lookup market.symbol known)
    else err value_error
