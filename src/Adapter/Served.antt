-- ===== src/Adapter/Served.antt =====
-- What `order_book` of the Lighter adapter serves, after any calls of its methods.
use mathlib.Core.List.{Memᴰ}
use liqvera.Prelude.{
  ◌≡◌, refl, sym, ap, subst, ◌∙◌, Bool, true, false, List, [], ◌∷◌, Option, none, some, Result, ok,
  else-ok, All, Bool-cases, inl, inr,
}
use liqvera.Prelude.Int.{ℤ}
use liqvera.Prelude.Action.{
  Keeps, >>=-Keeps, self-Keeps, call-Keeps, return-Keeps, modify-Keeps, call-eq-ok, ◌>>=◌, call,
}
use liqvera.Python.{Str, Raised, value_error, Unicode, str_eq, str_eq_iff}
use liqvera.Decimal.{Number}
use liqvera.Json.{Json, Members}
use liqvera.Json.Builtins.{Builtins}
use liqvera.Market.{OrderBookSnapshot}
use liqvera.Market.Admission.{IsBook}
use liqvera.Market.Venue.{VenueMarket}
use liqvera.Capture.Reducer.{LighterBookReducer, apply, snapshot, snapshot_of, build_snapshot}
use liqvera.Capture.Available.{build_snapshot-IsBuilt, market_value-ok}
use liqvera.Adapter.{KnownMarket, Dict, lookup, assign, market_eq, require_market, is_known}
use liqvera.Adapter.Details.{lighter, LighterInstrumentMapping}
use liqvera.Adapter.Lighter.{
  LighterPublicAdapter, new_adapter, served, order_book, reducer_for, keep, reduce,
  apply_order_book_message, list_markets,
}
use liqvera.Adapter.Kept.{apply-Keeps}
use liqvera.Adapter.Channel.{Call, listing, message, IsOn, IsFollowed, IsFed, apply-IsOn}

module _ (P : Str → LighterBookReducer → Type 0) where
  lookup-All :
      (key : Str) (books : Dict LighterBookReducer) {r : LighterBookReducer}
      → All (λ entry. P entry.0 entry.1) books
      → lookup key books ≡ some r
      → P key r
  unfolding lookup
  lookup-All key [] {r} every h = cc
  lookup-All key ((k, x) ∷ books) {r} (here, there) h = elim (Bool-cases (str_eq k key)) [
    | inl e ↦
        let same = (str_eq_iff k key).0 e in
        let found : x ≡ r = (let k = rw e at h in cc) in
        subst (P key) found (subst (λ q. P q x) same here)
    | inr e ↦ let later = rw e at h in lookup-All key books there later
  ]

  assign-All :
      (key : Str) (r : LighterBookReducer) (books : Dict LighterBookReducer)
      → P key r
      → All (λ entry. P entry.0 entry.1) books
      → All (λ entry. P entry.0 entry.1) (assign key r books)
  unfolding assign
  assign-All key r [] h every = (h, tt)
  assign-All key r ((k, x) ∷ books) h (here, there) = elim (Bool-cases (str_eq k key)) [
    | inl e ↦ rw e (subst (λ q. P q r) (sym ((str_eq_iff k key).0 e)) h, there)
    | inr e ↦ rw e (here, assign-All key r books h there)
  ]

pub lookup-assign :
    (key : Str) (r : LighterBookReducer) (books : Dict LighterBookReducer)
    → lookup key (assign key r books) ≡ some r
unfolding lookup assign
lookup-assign key r [] = rw ((str_eq_iff key key).1 refl) refl
lookup-assign key r ((k, x) ∷ books) = elim (Bool-cases (str_eq k key)) [
  | inl e ↦ rw (e, e) refl
  | inr e ↦ rw (e, e) (lookup-assign key r books)
]

module _ (u : Unicode) (b : Builtins) (scaled : ℤ → Result Raised Number)
    (mapping_for : Str → Members → Option LighterInstrumentMapping) where
  abbrev call_of : Call → LighterPublicAdapter → LighterPublicAdapter
  call_of (listing response) a = (list_markets u b scaled mapping_for response a).0
  call_of (message received market fields) a =
      (apply_order_book_message u b received market fields a).0

  unfoldable pub calls : List Call → LighterPublicAdapter → LighterPublicAdapter
  calls [] a = a
  calls (c ∷ history) a = calls history (call_of c a)

  module _ (history : List Call) where
    -- Every reducer of the adapter
    abbrev AreFed : LighterPublicAdapter → Type 0
    AreFed a = All (λ entry. IsFed u history entry.0 entry.1) a.books

    keep-AreFed :
        {A : Type 0} (symbol : Str) (a : LighterPublicAdapter)
        (x : LighterBookReducer × Result Raised A)
        → IsFed u history symbol x.0
        → AreFed a
        → AreFed (keep symbol a x).0
    keep-AreFed symbol a (r, outcome) h fed = assign-All (IsFed u history) symbol r a.books h fed

    reducer_for-symbol :
        (symbol : Str) (index : ℤ) (books : Dict LighterBookReducer)
        → All (λ entry. IsFed u history entry.0 entry.1) books
        → (reducer_for symbol index (lookup symbol books)).symbol ≡ symbol
    reducer_for-symbol symbol index books fed = go (lookup symbol books) refl
      where
        go :
            (o : Option LighterBookReducer)
            → lookup symbol books ≡ o
            → (reducer_for symbol index o).symbol ≡ symbol
        go none e = refl
        go (some r) e = (lookup-All (IsFed u history) symbol books fed e).keyed

    apply-IsFed :
        (received : ℤ) (market : VenueMarket) (fields : Members) (r : LighterBookReducer)
        → Memᴰ (message received market fields) history
        → r.symbol ≡ market.symbol
        → IsFed u history market.symbol (apply u b received fields r).0
    apply-IsFed received market fields r called keyed =
        let kept =
          (apply-Keeps u b market.symbol r.market_index received fields).keeps r
            (record { symbol_kept = keyed; index_kept = refl }) in
        record {
          keyed = kept.symbol_kept;
          followed = elim (apply-IsOn u b received fields r) [
            | inl closed ↦ inl closed
            | inr on ↦ inr (record {
              received = received;
              market = market;
              fields = fields;
              called = called;
              of_symbol = refl;
              on_channel = subst (λ i. IsOn u i fields) (sym kept.index_kept) on;
            })
          ];
        }

    reduce-Keeps :
        (received : ℤ) (market : VenueMarket) (index : ℤ) (fields : Members)
        → Memᴰ (message received market fields) history
        → Keeps AreFed (reduce u b received market.symbol index fields)
    unfolding reduce
    reduce-Keeps received market index fields called = record {
      keeps = λ a fed.
          let r = reducer_for market.symbol index (lookup market.symbol a.books) in
          keep-AreFed market.symbol a (apply u b received fields r)
            (apply-IsFed received market fields r called
              (reducer_for-symbol market.symbol index a.books fed))
            fed;
    }

    apply_order_book_message-Keeps :
        (received : ℤ) (market : VenueMarket) (fields : Members)
        → Memᴰ (message received market fields) history
        → Keeps AreFed (apply_order_book_message u b received market fields)
    unfolding apply_order_book_message
    apply_order_book_message-Keeps received market fields called = >>=-Keeps _ _ self-Keeps (λ a.
        >>=-Keeps _ _ (call-Keeps _)
          (λ known. reduce-Keeps received market known.index fields called))

    list_markets-Keeps :
        (response : Json) → Keeps AreFed (list_markets u b scaled mapping_for response)
    unfolding list_markets
    list_markets-Keeps response =
        >>=-Keeps _ _ (call-Keeps _)
          (λ known. >>=-Keeps _ _ (modify-Keeps _ (λ a fed. fed)) (λ done. return-Keeps _))

    calls-AreFed :
        (rest : List Call) (a : LighterPublicAdapter)
        → ((c : Call) → Memᴰ c rest → Memᴰ c history)
        → AreFed a
        → AreFed (calls rest a)
    unfolding calls
    calls-AreFed [] a among fed = fed
    calls-AreFed (listing response ∷ rest) a among fed =
        calls-AreFed rest _ (λ c k. among c (Memᴰ.tail k))
          ((list_markets-Keeps response).keeps a fed)
    calls-AreFed (message received market fields ∷ rest) a among fed =
        calls-AreFed rest _ (λ c k. among c (Memᴰ.tail k))
          ((apply_order_book_message-Keeps received market fields
              (among (message received market fields) (Memᴰ.head refl))).keeps
            a fed)

-- What a snapshot that was served shows.
pub record IsServed (u : Unicode) (history : List Call) (a : LighterPublicAdapter)
    (market : VenueMarket) (s : OrderBookSnapshot) : Type 0 where
  pub known : KnownMarket
  pub listed : lookup market.symbol a.known ≡ some known
  pub same_market : market_eq known.market market ≡ true
  pub reducer : LighterBookReducer
  pub fed : lookup market.symbol a.books ≡ some reducer
  pub available : reducer.unavailable ≡ false
  pub followed : IsFollowed u history market.symbol reducer
  pub sequence : s.sequence ≡ reducer.nonce
  pub symbol : s.symbol ≡ market.symbol
  pub is_book : IsBook s

is_known-some :
    (market : VenueMarket) (o : Option KnownMarket) {k : KnownMarket}
    → is_known market o ≡ ok k
    → (o ≡ some k) × (market_eq k.market market ≡ true)
unfolding is_known
is_known-some market none h = cc
is_known-some market (some x) {k} h = elim (Bool-cases (market_eq x.market market)) [
  | inl e ↦
      let found : x ≡ k = (let q = rw e at h in cc) in
      (ap (λ y. some y) found, subst (λ y. market_eq y.market market ≡ true) found e)
  | inr e ↦ let q = rw e at h in cc
]

pub require_market-known :
    (venue : Str) (known : Dict KnownMarket) (market : VenueMarket) {k : KnownMarket}
    → require_market venue known market ≡ ok k
    → (lookup market.symbol known ≡ some k) × (market_eq k.market market ≡ true)
unfolding require_market
require_market-known venue known market {k} h = elim (Bool-cases (str_eq market.venue venue)) [
  | inl e ↦ is_known-some market (lookup market.symbol known) (rw e at h)
  | inr e ↦ let q = rw e at h in cc
]

pub snapshot_of-IsBuilt :
    (received : ℤ) (r : LighterBookReducer) (a : Bool) (n t : Option ℤ) {s : OrderBookSnapshot}
    → snapshot_of received r a n t ≡ ok s
    → (a ≡ false) × (s.sequence ≡ n) × (s.symbol ≡ r.symbol) × IsBook s
unfolding snapshot_of
snapshot_of-IsBuilt received r true n t h = cc
snapshot_of-IsBuilt received r false none t h = cc
snapshot_of-IsBuilt received r false (some n) none h = cc
snapshot_of-IsBuilt received r false (some n) (some t) h =
    let built =
      build_snapshot-IsBuilt received r n t (market_value-ok (build_snapshot received r n t) h) in
    (refl, built.sequence, built.symbol, built.is_book)

served-some :
    (received : ℤ) (o : Option LighterBookReducer) {s : OrderBookSnapshot}
    → served received o ≡ ok s
    → (r : LighterBookReducer) × (o ≡ some r)
      × (snapshot_of received r r.unavailable r.nonce r.timestamp_ms ≡ ok s)
unfolding served snapshot
served-some received none h = cc
served-some received (some r) {s} h = (r, refl, else-ok r.unavailable value_error h)

order_book-IsServed :
    (u : Unicode) (history : List Call) (received : ℤ) (market : VenueMarket)
    (a : LighterPublicAdapter) {t : LighterPublicAdapter} {s : OrderBookSnapshot}
    → All (λ entry. IsFed u history entry.0 entry.1) a.books
    → order_book received market a ≡ (t, ok s)
    → IsServed u history a market s
unfolding order_book require_market ◌>>=◌
order_book-IsServed u history received market a {t} {s} fed_all h =
    let (k, known, h0) =
      call-eq-ok (require_market lighter a.known market)
        (λ known. call (served received (lookup market.symbol a.books))) a {t = t} {b = s} h in
    let (listed, same) = require_market-known lighter a.known market known in
    let (r, fed, built) = served-some received (lookup market.symbol a.books) (ap (λ x. x.1) h0) in
    let (available, sequence, symbol, is_book) =
      snapshot_of-IsBuilt received r r.unavailable r.nonce r.timestamp_ms built in
    let kept = lookup-All (IsFed u history) market.symbol a.books fed_all fed in
    record {
      known = k;
      listed = listed;
      same_market = same;
      reducer = r;
      fed = fed;
      available = available;
      followed = elim kept.followed [ inl closed ↦ cc | inr followed ↦ followed ];
      sequence = sequence;
      symbol = symbol ∙ kept.keyed;
      is_book = is_book;
    }

module _ (u : Unicode) (b : Builtins) (scaled : ℤ → Result Raised Number)
    (mapping_for : Str → Members → Option LighterInstrumentMapping) where
  -- After any listings and messages, in any order and whatever they raise: what
  -- LighterPublicAdapter.order_book returns is an admitted book with the symbol of the market that
  -- was asked for, which is equal to the one listed under its symbol. The book has the nonce of an
  -- available reducer, to which one of those messages was handed for that symbol, and that message
  -- names the channel of the reducer's own market index.
  pub calls-IsServed :
      (history : List Call) (received : ℤ) (market : VenueMarket) {t : LighterPublicAdapter}
      {s : OrderBookSnapshot}
      → order_book received market (calls u b scaled mapping_for history new_adapter) ≡ (t, ok s)
      → IsServed u history (calls u b scaled mapping_for history new_adapter) market s
  calls-IsServed history received market {t} {s} h =
      order_book-IsServed u history received market
        (calls u b scaled mapping_for history new_adapter)
        (calls-AreFed u b scaled mapping_for history history new_adapter (λ c k. k) tt) h
