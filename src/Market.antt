-- ===== src/Market.antt =====
-- Order books and market identities of packages/contracts/src/liqvera_contracts/market.py. A frozen
-- dataclass is a record; the function that is named for it stands for the call of its
-- constructor with `__post_init__`.
pub mod Admission
pub mod Venue
pub mod Common
pub mod Discovery
use liqvera.Prelude.{
  ℕ, Bool, true, not, ◌&&◌, ◌||◌, List, [], ◌∷◌, Option, Result, ok, ◌>>=◌, ◌>>◌, raise_if,
}
use liqvera.Prelude.Int.{ℤ, ◌-ℤ◌}
use liqvera.Python.{Str, is_empty}
use liqvera.Decimal.{Decimal, lt, le, nought}

-- The ValueErrors.
pub data Error : Type 0 where
  not_positive one_sided bids_unordered asks_unordered crossed : Error

pub record InstrumentIdentity : Type 0 where
  pub base_asset : Str
  pub quote_asset : Str
  pub product_kind : Str
  pub settlement_asset : Str
  pub payoff_kind : Str

pub record BookLevel : Type 0 where
  pub price : Decimal
  pub quantity : Decimal

-- `BookLevel(price, quantity)`
unfoldable pub book_level : Decimal → Decimal → Result Error BookLevel
book_level price quantity = do
  raise_if (le price nought || le quantity nought) not_positive
  ok (record { price = price; quantity = quantity })

pub record OrderBookSnapshot : Type 0 where
  pub venue : Str
  pub symbol : Str
  pub sequence : Option ℤ
  pub exchange_timestamp_ms : ℤ
  pub received_timestamp_ms : ℤ
  pub bids : List BookLevel
  pub asks : List BookLevel

-- `_strictly_descending`: the test runs over neighbours.
unfoldable pub strictly_descending : List BookLevel → Bool
strictly_descending [] = true
strictly_descending (x ∷ []) = true
strictly_descending (x ∷ y ∷ levels) = lt y.price x.price && strictly_descending (y ∷ levels)

unfoldable pub strictly_ascending : List BookLevel → Bool
strictly_ascending [] = true
strictly_ascending (x ∷ []) = true
strictly_ascending (x ∷ y ∷ levels) = lt x.price y.price && strictly_ascending (y ∷ levels)

-- `bids[0].price >= asks[0].price`, where both sides have a level
unfoldable pub is_crossed : List BookLevel → List BookLevel → Bool
is_crossed (b ∷ bids) (a ∷ asks) = le a.price b.price
is_crossed _ _ = true

-- `__post_init__` of OrderBookSnapshot
unfoldable pub admit : OrderBookSnapshot → Result Error OrderBookSnapshot
admit s = do
  raise_if (is_empty s.bids || is_empty s.asks) one_sided
  raise_if (not (strictly_descending s.bids)) bids_unordered
  raise_if (not (strictly_ascending s.asks)) asks_unordered
  raise_if (is_crossed s.bids s.asks) crossed
  ok s

-- `age_at_receive_ms`
pub age_at_receive_ms : OrderBookSnapshot → ℤ
age_at_receive_ms s = s.received_timestamp_ms -ℤ s.exchange_timestamp_ms
