-- ===== src/Adapter/Lighter.antt =====
-- `LighterPublicAdapter` of packages/public-capture/src/liqvera_public_capture/public_adapters/
-- lighter.py. What the transport returned, and what the clock read, are arguments.
use liqvera.Prelude.{List, [], map, Option, none, some, Result, err, if◌then◌else◌}
use liqvera.Prelude.Int.{ℤ}
use liqvera.Prelude.Action.{Action, ◌>>=◌, ◌>>◌, return, call, self, modify}
use liqvera.Python.{Str, Raised, value_error, Unicode}
use liqvera.Decimal.{Number}
use liqvera.Json.{Json, Members}
use liqvera.Json.Builtins.{Builtins}
use liqvera.Market.{OrderBookSnapshot}
use liqvera.Market.Venue.{VenueMarket}
use liqvera.Capture.Reducer.{LighterBookReducer, lighter_book_reducer, apply, snapshot}
use liqvera.Adapter.{KnownMarket, Dict, lookup, assign, require_market}
use liqvera.Adapter.Details.{lighter, LighterInstrumentMapping, discovered}

-- The adapter's dictionaries
pub record LighterPublicAdapter : Type 0 where
  pub known : Dict KnownMarket
  pub books : Dict LighterBookReducer

-- `__init__`
abbrev pub new_adapter : LighterPublicAdapter
new_adapter = record { known = []; books = [] }

abbrev pub markets_of : Dict KnownMarket → List VenueMarket
markets_of known = map (λ (entry : Str × KnownMarket). entry.1.market) known

-- `reducer is None or reducer.unavailable`
unfoldable pub served : ℤ → Option LighterBookReducer → Result Raised OrderBookSnapshot
served received none = err value_error
served received (some r) = if r.unavailable then err value_error else (snapshot received r).1

-- `order_book`
unfoldable pub order_book : ℤ → VenueMarket → Action LighterPublicAdapter Raised OrderBookSnapshot
order_book received market = do
  a ← self
  known ← call (require_market lighter a.known market)
  call (served received (lookup market.symbol a.books))

-- The reducer of `setdefault`
abbrev pub reducer_for : Str → ℤ → Option LighterBookReducer → LighterBookReducer
reducer_for symbol index none = lighter_book_reducer symbol index
reducer_for symbol index (some r) = r

-- The reducer stands in the dictionary whatever its method did.
abbrev pub keep :
    {A : Type 0}
    → Str
    → LighterPublicAdapter
    → LighterBookReducer × Result Raised A
    → LighterPublicAdapter × Result Raised A
keep symbol a (r, outcome) = (record a { books = assign symbol r a.books }, outcome)

module _ (u : Unicode) (b : Builtins) where
  -- `reducer.apply(message)`
  unfoldable pub reduce :
      ℤ → Str → ℤ → Members → Action LighterPublicAdapter Raised (Option OrderBookSnapshot)
  reduce received symbol index message a =
      keep symbol a (apply u b received message (reducer_for symbol index (lookup symbol a.books)))

  -- `apply_order_book_message`
  unfoldable pub apply_order_book_message :
      ℤ → VenueMarket → Members → Action LighterPublicAdapter Raised (Option OrderBookSnapshot)
  apply_order_book_message received market message = do
    a ← self
    known ← call (require_market lighter a.known market)
    reduce received market.symbol known.index message

  module _ (scaled : ℤ → Result Raised Number)
      (mapping_for : Str → Members → Option LighterInstrumentMapping) where
    -- `list_markets`
    unfoldable pub list_markets : Json → Action LighterPublicAdapter Raised (List VenueMarket)
    list_markets response = do
      known ← call (discovered u b scaled mapping_for response)
      modify (λ (a : LighterPublicAdapter). record a { known = known })
      return (markets_of known)
