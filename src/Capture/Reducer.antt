-- ===== src/Capture/Reducer.antt =====
-- `LighterBookReducer` of public_adapters/lighter.py: one book under its messages, with what an
-- exception leaves behind.
use liqvera.Prelude.{
  ℕ, suc, Bool, true, false, not, ◌&&◌, ◌||◌, List, [], ◌∷◌, ◌++◌, Option, none, some, Result, ok,
  err, raise_if, if◌then◌else◌,
}
use liqvera.Prelude
use liqvera.Prelude.Int.{ℤ, pos, negsuc, leb_ℤ}
use liqvera.Prelude.Action.{Action, ◌>>=◌, ◌>>◌, return, call, self, modify}
use liqvera.Python.{Str, Raised, value_error, Unicode, codes, str_eq, str_nat}
use liqvera.Decimal.{Decimal, eq, lt, le, nought}
use liqvera.Json.{Json, Items, no_items, item, Members, get}
use liqvera.Json.Builtins.{Builtins}
use liqvera.Market
use liqvera.Market.{BookLevel, book_level, OrderBookSnapshot}
use liqvera.Reconstruction.Epochs.{same_nonce}
use liqvera.Capture.Fields.{object_of, array_of, string_of, integer_of, decimal_of}

-- A dictionary from prices to sizes, in the order of insertion. Equal decimals are one key.
abbrev pub Levels : Type 0
Levels = List (Decimal × Decimal)

pub record LighterBookReducer : Type 0 where
  pub symbol : Str
  pub market_index : ℤ
  pub bids : Levels
  pub asks : Levels
  pub nonce : Option ℤ
  pub timestamp_ms : Option ℤ
  pub unavailable : Bool

-- `LighterBookReducer(symbol, market_index, ...)`
abbrev pub lighter_book_reducer : Str → ℤ → LighterBookReducer
lighter_book_reducer symbol market_index = record {
  symbol = symbol;
  market_index = market_index;
  bids = [];
  asks = [];
  nonce = none;
  timestamp_ms = none;
  unavailable = true;
}

-- `levels.pop(price, None)`: a key stands there once.
unfoldable pub pop : Decimal → Levels → Levels
pop price [] = []
pop price ((p, s) ∷ levels) =
    let rest = pop price levels in if eq p price then rest else (p, s) ∷ rest

-- `levels[price] = size`
unfoldable pub put : Decimal → Decimal → Levels → Levels
put price size [] = (price, size) ∷ []
put price size ((p, s) ∷ levels) =
    let rest = put price size levels in if eq p price then (p, size) ∷ levels else (p, s) ∷ rest

abbrev pub put_or_pop : Decimal × Decimal → Levels → Levels
put_or_pop (price, size) levels = if eq size nought then pop price levels else put price size levels

-- What was read before an exception is lost.
abbrev pub fresh : Levels × Result Raised (Unit {0}) → Result Raised Levels
fresh (read, ok done) = ok read
fresh (read, err e) = err e

-- `str(n)`
unfoldable pub str_int : ℤ → Str
str_int (pos n) = str_nat n
str_int (negsuc n) = b'-' ∷ str_nat (suc n)

-- `sorted(levels.items())`, by price: no two keys are equal. The test says what stands first.
unfoldable pub insert_level : (Decimal → Decimal → Bool) → Decimal × Decimal → Levels → Levels
insert_level first level [] = level ∷ []
insert_level first level (l ∷ levels) =
    let rest = insert_level first level levels in
    if first level.0 l.0 then level ∷ l ∷ levels else l ∷ rest

unfoldable pub sorted : (Decimal → Decimal → Bool) → Levels → Levels
sorted first [] = []
sorted first (l ∷ levels) = insert_level first l (sorted first levels)

-- The ValueErrors of the market's constructors.
abbrev pub market_value : {A : Type 0} → Result Market.Error A → Result Raised A
market_value (ok a) = ok a
market_value (err e) = err value_error

-- `tuple(BookLevel(price, size) for price, size in ...)`
unfoldable pub book_levels : Levels → Result Market.Error (List BookLevel)
book_levels [] = ok []
book_levels ((price, size) ∷ levels) =
    Prelude.◌>>=◌ (book_level price size)
      (λ l. Prelude.◌>>=◌ (book_levels levels) (λ rest. ok (l ∷ rest)))

-- `OrderBookSnapshot(...)`
unfoldable pub build_snapshot :
    ℤ → LighterBookReducer → ℤ → ℤ → Result Market.Error OrderBookSnapshot
build_snapshot received r nonce timestamp =
    Prelude.◌>>=◌ (book_levels (sorted (λ x y. lt y x) r.bids)) (λ bids.
      Prelude.◌>>=◌ (book_levels (sorted lt r.asks)) (λ asks. Market.admit (record {
        venue = codes "LIGHTER";
        symbol = r.symbol;
        sequence = some nonce;
        exchange_timestamp_ms = timestamp;
        received_timestamp_ms = received;
        bids = bids;
        asks = asks;
      })))

-- `snapshot`, over the three fields that it tests
unfoldable pub snapshot_of :
    ℤ → LighterBookReducer → Bool → Option ℤ → Option ℤ → Result Raised OrderBookSnapshot
snapshot_of received r false (some nonce) (some timestamp) =
    market_value (build_snapshot received r nonce timestamp)
snapshot_of received r _ _ _ = err value_error

-- A method of one side's dictionary.
abbrev pub set_bids :
    LighterBookReducer
    → Levels × Result Raised (Unit {0})
    → LighterBookReducer × Result Raised (Unit {0})
set_bids r (levels, done) = (record r { bids = levels }, done)

abbrev pub set_asks :
    LighterBookReducer
    → Levels × Result Raised (Unit {0})
    → LighterBookReducer × Result Raised (Unit {0})
set_asks r (levels, done) = (record r { asks = levels }, done)

abbrev pub on_bids : Action Levels Raised (Unit {0}) → Action LighterBookReducer Raised (Unit {0})
on_bids action r = set_bids r (action r.bids)

abbrev pub on_asks : Action Levels Raised (Unit {0}) → Action LighterBookReducer Raised (Unit {0})
on_asks action r = set_asks r (action r.asks)

-- `except Exception: self.unavailable = True; raise`
abbrev pub closing :
    {A : Type 0} → LighterBookReducer × Result Raised A → LighterBookReducer × Result Raised A
closing (r, ok a) = (r, ok a)
closing (r, err e) = (record r { unavailable = true }, err e)

-- `snapshot`
unfoldable pub snapshot : ℤ → Action LighterBookReducer Raised OrderBookSnapshot
unfolding snapshot_of
snapshot received r = (r, snapshot_of received r r.unavailable r.nonce r.timestamp_ms)

-- The book does not follow.
abbrev pub gap : Action LighterBookReducer Raised (Option OrderBookSnapshot)
gap r = (record r { unavailable = true }, ok none)

module _ (u : Unicode) (b : Builtins) where
  -- Price and size of one level, tested.
  unfoldable pub read_level : Json → Result Raised (Decimal × Decimal)
  read_level raw = Prelude.◌>>=◌ (object_of raw) (λ level.
      Prelude.◌>>=◌ (decimal_of b (get (codes "price") level)) (λ price.
        Prelude.◌>>=◌ (decimal_of b (get (codes "size") level)) (λ size.
          if lt size nought || le price nought then err value_error else ok (price, size))))

  -- The loop of `_apply_levels`.
  unfoldable pub apply_items : Items → Action Levels Raised (Unit {0})
  apply_items no_items = return tt
  apply_items (item raw rest) = do
    level ← call (read_level raw)
    modify (put_or_pop level)
    apply_items rest

  -- `_apply_levels`
  unfoldable pub apply_levels : Members → Str → Action Levels Raised (Unit {0})
  apply_levels book side = do items ← call (array_of (get side book)); apply_items items

  -- `_levels`
  unfoldable pub levels : Members → Str → Result Raised Levels
  levels book side = fresh (apply_levels book side [])

  -- `_snapshot`
  unfoldable pub timed_snapshot :
      ℤ → Members → Action LighterBookReducer Raised (Option OrderBookSnapshot)
  timed_snapshot received message = do
    timestamp ← call (integer_of (get (codes "timestamp") message))
    modify (λ r. record r { timestamp_ms = some timestamp })
    s ← snapshot received
    return (some s)

  -- The branch of a snapshot message.
  unfoldable pub start :
      ℤ → Members → Members → Action LighterBookReducer Raised (Option OrderBookSnapshot)
  start received message book = do
    bids ← call (levels book (codes "bids"))
    modify (λ r. record r { bids = bids })
    asks ← call (levels book (codes "asks"))
    modify (λ r. record r { asks = asks })
    nonce ← call (integer_of (get (codes "nonce") book))
    modify (λ r. record r { nonce = some nonce; unavailable = false })
    timed_snapshot received message

  -- The branch of an update that follows the book.
  unfoldable pub follow :
      ℤ → Members → Members → ℤ → Action LighterBookReducer Raised (Option OrderBookSnapshot)
  follow received message book next_nonce = do
    on_bids (apply_levels book (codes "bids"))
    on_asks (apply_levels book (codes "asks"))
    modify (λ r. record r { nonce = some next_nonce })
    timed_snapshot received message

  -- The branch of an update: a gap makes the book unavailable.
  unfoldable pub update :
      ℤ → Members → Members → Action LighterBookReducer Raised (Option OrderBookSnapshot)
  update received message book = do
    begin_nonce ← call (integer_of (get (codes "begin_nonce") book))
    next_nonce ← call (integer_of (get (codes "nonce") book))
    r ← self
    if not (same_nonce begin_nonce r.nonce) || leb_ℤ next_nonce begin_nonce
        then gap
        else follow received message book next_nonce

  -- The body of the `try`.
  unfoldable pub step : ℤ → Members → Action LighterBookReducer Raised (Option OrderBookSnapshot)
  step received message = do
    channel ← call (string_of u (get (codes "channel") message))
    r ← self
    call (
        raise_if (not (str_eq channel (codes "order_book:" ++ str_int r.market_index))) value_error)
    book ← call (object_of (get (codes "order_book") message))
    message_type ← call (string_of u (get (codes "type") message))
    if str_eq message_type (codes "subscribed/order_book")
        then start received message book
        else if r.unavailable || not (str_eq message_type (codes "update/order_book"))
        then return none
        else update received message book

  -- `apply`; whatever is raised makes the book unavailable.
  unfoldable pub apply : ℤ → Members → Action LighterBookReducer Raised (Option OrderBookSnapshot)
  apply received message r = closing (step received message r)

  -- The messages of a connection, in their order, each with the clock's reading; the caller goes on
  -- after an exception.
  unfoldable pub run : LighterBookReducer → List (ℤ × Members) → LighterBookReducer
  run r [] = r
  run r ((received, message) ∷ messages) = run (apply received message r).0 messages
