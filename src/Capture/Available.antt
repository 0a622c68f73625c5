-- ===== src/Capture/Available.antt =====
-- When the reducer's book is available.
use liqvera.Prelude.{
  ap, ◌≡◌, refl, subst, Bool, true, false, List, Option, none, some, Result, ok, err, >>=-eq-ok,
  ok-injective,
}
use liqvera.Prelude.Int.{ℤ}
use liqvera.Python.{Raised, Unicode, codes}
use liqvera.Decimal.{lt}
use liqvera.Json.{Members}
use liqvera.Json.Builtins.{Builtins}
use liqvera.Market
use liqvera.Market.{BookLevel, OrderBookSnapshot}
use liqvera.Market.Admission.{IsBook, admit-Passes, Passes-IsBook}
use liqvera.Capture.Walk.{IsWay, step-Leads}
use liqvera.Capture.Reducer.{
  LighterBookReducer, build_snapshot, book_levels, sorted, snapshot_of, market_value, apply,
  closing,
}

-- What one message leads to, from `r`; `C` is what holds after an exception.
pub data Emits (C : LighterBookReducer → Type 0) (r : LighterBookReducer)
    : LighterBookReducer → Result Raised (Option OrderBookSnapshot) → Type 0 where
  closed : {t : LighterBookReducer} {e : Raised} → C t → Emits C r t (err e)
  skipped : Emits C r r (ok none)
  broken : {t : LighterBookReducer} → t.unavailable ≡ true → Emits C r t (ok none)
  emitted :
      {t : LighterBookReducer} {s : OrderBookSnapshot} (nonce timestamp : ℤ)
      → t.unavailable ≡ false
      → t.nonce ≡ some nonce
      → t.timestamp_ms ≡ some timestamp
      → s.sequence ≡ some nonce
      → s.exchange_timestamp_ms ≡ timestamp
      → s.symbol ≡ t.symbol
      → IsBook s
      → Emits C r t (ok (some s))

abbrev Anything : LighterBookReducer → Type 0
Anything t = Unit

abbrev pub IsClosed : LighterBookReducer → Type 0
IsClosed t = t.unavailable ≡ true

-- The fields of what was built.
pub record IsBuilt (t : LighterBookReducer) (nonce timestamp : ℤ) (s : OrderBookSnapshot)
    : Type 0 where
  pub sequence : s.sequence ≡ some nonce
  pub time : s.exchange_timestamp_ms ≡ timestamp
  pub symbol : s.symbol ≡ t.symbol
  pub is_book : IsBook s

abbrev sent : ℤ → LighterBookReducer → ℤ → ℤ → List BookLevel → List BookLevel → OrderBookSnapshot
sent received t nonce timestamp bids asks = record {
  venue = codes "LIGHTER";
  symbol = t.symbol;
  sequence = some nonce;
  exchange_timestamp_ms = timestamp;
  received_timestamp_ms = received;
  bids = bids;
  asks = asks;
}

pub build_snapshot-IsBuilt :
    (received : ℤ) (t : LighterBookReducer) (nonce timestamp : ℤ) {s : OrderBookSnapshot}
    → build_snapshot received t nonce timestamp ≡ ok s
    → IsBuilt t nonce timestamp s
unfolding build_snapshot
build_snapshot-IsBuilt received t nonce timestamp {s} h =
    let (bids, e0, h0) = >>=-eq-ok (book_levels (sorted (λ x y. lt y x) t.bids)) _ {last = s} h in
    let (asks, e1, h1) = >>=-eq-ok (book_levels (sorted lt t.asks)) _ {last = s} h0 in
    let (p, same) = admit-Passes (sent received t nonce timestamp bids asks) h1 in
    subst (IsBuilt t nonce timestamp) same (record {
      sequence = refl;
      time = refl;
      symbol = refl;
      is_book = Passes-IsBook (sent received t nonce timestamp bids asks) p;
    })

pub market_value-ok :
    (r : Result Market.Error OrderBookSnapshot) {s : OrderBookSnapshot}
    → market_value r ≡ ok s
    → r ≡ ok s
market_value-ok (ok x) h = let k = ok-injective h in ap (λ y. ok y) k
market_value-ok (err e) h = cc

snapshot_of-Emits :
    (received : ℤ) (r t : LighterBookReducer) (a : Bool) (n ts : Option ℤ) {s : OrderBookSnapshot}
    → t.unavailable ≡ a
    → t.nonce ≡ n
    → t.timestamp_ms ≡ ts
    → snapshot_of received t a n ts ≡ ok s
    → Emits Anything r t (ok (some s))
unfolding snapshot_of
snapshot_of-Emits received r t false (some nonce) (some timestamp) ea en et h =
    let b =
      build_snapshot-IsBuilt received t nonce timestamp
        (market_value-ok (build_snapshot received t nonce timestamp) h) in
    emitted nonce timestamp ea en et b.sequence b.time b.symbol b.is_book
snapshot_of-Emits received r t false (some nonce) none ea en et h = cc
snapshot_of-Emits received r t false none ts ea en et h = cc
snapshot_of-Emits received r t true n ts ea en et h = cc

emits : (received : ℤ) (r : LighterBookReducer) → IsWay received r (Emits Anything r)
emits received r = record {
  raising = λ t e. closed tt;
  skipping = skipped;
  breaking = λ t e. broken e;
  giving =
      λ t s h. snapshot_of-Emits received r t t.unavailable t.nonce t.timestamp_ms refl refl refl h;
}

closing-Emits :
    (r : LighterBookReducer) (x : LighterBookReducer × Result Raised (Option OrderBookSnapshot))
    → Emits Anything r x.0 x.1
    → Emits IsClosed r (closing x).0 (closing x).1
closing-Emits r (t, ok none) skipped = skipped
closing-Emits r (t, ok none) (broken k) = broken k
closing-Emits r (t, ok (some s)) (emitted n ts a b c d e f g) = emitted n ts a b c d e f g
closing-Emits r (t, err e) h = closed refl

module _ (u : Unicode) (b : Builtins) where
  -- Whatever the message, LighterBookReducer.apply does one of four things: it raises and the book
  -- is unavailable; it leaves the object as it was and returns None; it returns None and the book
  -- is unavailable; or it returns a snapshot that is an admitted book with the reducer's symbol,
  -- nonce and timestamp, and the book is available.
  pub apply-Emits :
      (received : ℤ) (message : Members) (r : LighterBookReducer)
      → Emits IsClosed r (apply u b received message r).0 (apply u b received message r).1
  unfolding apply
  apply-Emits received message r =
      let step = step-Leads r u b received message (emits received r) in
      closing-Emits r _ step.holds
