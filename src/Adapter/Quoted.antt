-- ===== src/Adapter/Quoted.antt =====
-- What the Hyperliquid adapter lists, and what it then returns as the book of a market.
use liqvera.Prelude.{
  Bool, not, false, raise_if, not_raised, ℕ, suc, ◌-◌, ◌≤◌, ◌≡◌, refl, sym, ap, subst, true, List,
  [], ◌∷◌, Option, none, some, ok, >>=-eq-ok, ok-injective, All, leb, Bool-cases, inl, inr, leb_iff,
  Ensures, ok-Ensures, ensured,
}
use liqvera.Prelude.Int.{ℤ, pos, negsuc}
use liqvera.Prelude.Action.{call-eq-ok}
use liqvera.Python.{Str, Raised, value_error, Unicode, codes, str_eq, str_eq_iff}
use liqvera.Decimal.{finite}
use liqvera.Json.{Json, Members, get}
use liqvera.Json.Builtins.{Builtins}
use liqvera.Market
use liqvera.Market.{OrderBookSnapshot}
use liqvera.Market.Admission.{IsBook, admit-Passes, Passes-IsBook}
use liqvera.Market.Venue.{VenueMarket, venue_market}
use liqvera.Capture.Fields.{object_of, string_of, integer_of}
use liqvera.Capture.Available.{market_value-ok}
use liqvera.Adapter.{KnownMarket, Dict, lookup, assign, market_eq, require_market}
use liqvera.Adapter.Hyperliquid.{
  hyperliquid, HyperliquidInstrumentMapping, HyperliquidPublicAdapter, perp_decimals, perp_market,
  sequence_of, pair_of, book_levels, learn, read_universe, meta_and_contexts, list_markets,
  discovered, store, book_of, order_book,
}
use liqvera.Adapter.Served.{require_market-known}

-- A perpetual of the venue: the places of a size and those of a price are six together.
pub record IsPerp (symbol : Str) (k : KnownMarket) : Type 0 where
  pub sz_decimals : ℕ
  pub bounded : sz_decimals ≤ 6
  pub venue : k.market.venue ≡ hyperliquid
  pub named : k.market.symbol ≡ symbol
  pub step : k.market.quantity_step ≡ finite (record { coefficient = pos 1; places = sz_decimals })
  pub tick : k.market.price_tick ≡ none
  pub price_places : k.market.price_decimals ≡ some (pos (6 - sz_decimals))
  pub figures : k.market.max_price_significant_digits ≡ some (pos 5)

abbrev ArePerps : Dict KnownMarket → Type 0
ArePerps known = All (λ entry. IsPerp entry.0 entry.1) known

assign-ArePerps :
    (key : Str) (k : KnownMarket) (known : Dict KnownMarket)
    → IsPerp key k
    → ArePerps known
    → ArePerps (assign key k known)
unfolding assign
assign-ArePerps key k [] p perps = (p, tt)
assign-ArePerps key k ((q, x) ∷ known) p (here, there) = elim (Bool-cases (str_eq q key)) [
  | inl e ↦ rw e (subst (λ s. IsPerp s k) (sym ((str_eq_iff q key).0 e)) p, there)
  | inr e ↦ rw e (here, assign-ArePerps key k known p there)
]

lookup-IsPerp :
    (key : Str) (known : Dict KnownMarket) {k : KnownMarket}
    → ArePerps known
    → lookup key known ≡ some k
    → IsPerp key k
unfolding lookup
lookup-IsPerp key [] perps h = cc
lookup-IsPerp key ((q, x) ∷ known) {k} (here, there) h = elim (Bool-cases (str_eq q key)) [
  | inl e ↦
      let found : x ≡ k = (let y = rw e at h in cc) in
      subst (λ y. IsPerp key y) found (subst (λ s. IsPerp s x) ((str_eq_iff q key).0 e) here)
  | inr e ↦ lookup-IsPerp key known there (rw e at h)
]

perp_decimals-le : (z : ℤ) {n : ℕ} → perp_decimals z ≡ ok n → n ≤ 6
perp_decimals-le (pos m) {n} h = elim (Bool-cases (leb m 6)) [
  | inl e ↦
      let same : m ≡ n = (let y = rw e at h in cc) in subst (λ x. x ≤ 6) same ((leb_iff m 6).0 e)
  | inr e ↦ let y = rw e at h in cc
]
perp_decimals-le (negsuc m) h = cc

venue_market-Ensures : (m : VenueMarket) → Ensures (λ n. m ≡ n) (venue_market m)
unfolding venue_market
venue_market-Ensures m = search (ensured, ok-Ensures {E = Raised} {P = λ n. m ≡ n} m refl) depth 24

venue_market-same : (m : VenueMarket) {n : VenueMarket} → venue_market m ≡ ok n → m ≡ n
venue_market-same m {n} h = (venue_market-Ensures m).holds n h

learn-ArePerps :
    (index : ℕ) (symbol : Str) (n : ℕ) (mapping : Option HyperliquidInstrumentMapping)
    (known : Dict KnownMarket) {later : Dict KnownMarket}
    → n ≤ 6
    → ArePerps known
    → learn index symbol n mapping known ≡ ok later
    → ArePerps later
unfolding learn
learn-ArePerps index symbol n none known low perps h = subst ArePerps (ok-injective h) perps
learn-ArePerps index symbol n (some mapping) known {later} low perps h =
    let (market, made, h0) =
      >>=-eq-ok (venue_market (perp_market symbol n mapping)) _ {last = later} h in
    let same = venue_market-same (perp_market symbol n mapping) made in
    subst ArePerps (ok-injective h0) (
      assign-ArePerps symbol (record { index = pos index; market = market }) known
        (subst (λ m. IsPerp symbol (record { index = pos index; market = m })) same
          (record {
            sz_decimals = n;
            bounded = low;
            venue = refl;
            named = refl;
            step = refl;
            tick = refl;
            price_places = refl;
            figures = refl;
          }))
        perps)

module _ (u : Unicode) (b : Builtins)
    (mapping_for : Str → Members → Option HyperliquidInstrumentMapping) where
  read_universe-ArePerps :
      (index : ℕ) (universe : List Members) (known : Dict KnownMarket) {later : Dict KnownMarket}
      → ArePerps known
      → read_universe u b mapping_for index universe known ≡ ok later
      → ArePerps later
  unfolding read_universe
  read_universe-ArePerps index [] known perps h = subst ArePerps (ok-injective h) perps
  read_universe-ArePerps index (metadata ∷ universe) known {later} perps h =
      let (symbol, e0, h0) =
        >>=-eq-ok (string_of u (get (codes "name") metadata)) _ {last = later} h in
      let (given, e1, h1) =
        >>=-eq-ok (integer_of (get (codes "szDecimals") metadata)) _ {last = later} h0 in
      let (n, few, h2) = >>=-eq-ok (perp_decimals given) _ {last = later} h1 in
      let (next, learnt, h3) =
        >>=-eq-ok (learn index symbol n (mapping_for symbol metadata) known) _ {last = later} h2 in
      read_universe-ArePerps (suc index) universe next
        (learn-ArePerps index symbol n (mapping_for symbol metadata) known
          (perp_decimals-le given few) perps learnt)
        h3

  list_markets-ArePerps :
      (response : Json) (a : HyperliquidPublicAdapter) {t : HyperliquidPublicAdapter}
      {markets : List VenueMarket}
      → list_markets u b mapping_for response a ≡ (t, ok markets)
      → ArePerps t.known_markets
  unfolding list_markets discovered store
  list_markets-ArePerps response a {t} {markets} h =
      let (known, read, stored) =
        call-eq-ok (discovered u b mapping_for response) store a {t = t} {b = markets} h in
      let (universe, e, built) = >>=-eq-ok (meta_and_contexts response) _ {last = known} read in
      subst (λ (x : HyperliquidPublicAdapter). ArePerps x.known_markets) (ap (λ x. x.0) stored)
        (read_universe-ArePerps 0 universe [] tt built)

-- The coin and the time of a response
pub record IsOf (u : Unicode) (response : Json) (coin : Str) (time : ℤ) : Type 0 where
  pub payload : Members
  pub is_object : object_of response ≡ ok payload
  pub names : string_of u (get (codes "coin") payload) ≡ ok coin
  pub times : integer_of (get (codes "time") payload) ≡ ok time

-- A snapshot of a listed perpetual, from a response that names it
pub record IsQuoted (u : Unicode) (a : HyperliquidPublicAdapter) (received : ℤ)
    (market : VenueMarket) (response : Json) (s : OrderBookSnapshot) : Type 0 where
  pub known : KnownMarket
  pub listed : lookup market.symbol a.known_markets ≡ some known
  pub same_market : market_eq known.market market ≡ true
  pub perp : IsPerp market.symbol known
  pub of_response : IsOf u response market.symbol s.exchange_timestamp_ms
  pub venue : s.venue ≡ hyperliquid
  pub symbol : s.symbol ≡ market.symbol
  pub received_at : s.received_timestamp_ms ≡ received
  pub unnumbered : s.sequence ≡ none
  pub is_book : IsBook s

-- What the book of a response has from it and from the call
record IsBookOf (u : Unicode) (received : ℤ) (market : VenueMarket) (response : Json)
    (s : OrderBookSnapshot) : Type 0 where
  pub of_response : IsOf u response market.symbol s.exchange_timestamp_ms
  pub venue : s.venue ≡ hyperliquid
  pub symbol : s.symbol ≡ market.symbol
  pub received_at : s.received_timestamp_ms ≡ received
  pub unnumbered : s.sequence ≡ none
  pub is_book : IsBook s

book_of-IsBookOf :
    (u : Unicode) (b : Builtins) (received : ℤ) (market : VenueMarket) (response : Json)
    {s : OrderBookSnapshot}
    → book_of u b received market response ≡ ok s
    → IsBookOf u received market response s
unfolding book_of
book_of-IsBookOf u b received market response {s} h =
    let (payload, is_object, h0) = >>=-eq-ok (object_of response) _ {last = s} h in
    let (coin, named, h1) = >>=-eq-ok (string_of u (get (codes "coin") payload)) _ {last = s} h0 in
    let (done, tested, h2) =
      >>=-eq-ok (raise_if (not (str_eq coin market.symbol)) value_error) _ {last = s} h1 in
    let (time, timed, h3) = >>=-eq-ok (integer_of (get (codes "time") payload)) _ {last = s} h2 in
    let (levels, e4, h4) = >>=-eq-ok (sequence_of (get (codes "levels") payload)) _ {last = s} h3 in
    let (sides, e5, h5) = >>=-eq-ok (pair_of levels) _ {last = s} h4 in
    let (bids, e6, h6) = >>=-eq-ok (book_levels b sides.0) _ {last = s} h5 in
    let (asks, e7, h7) = >>=-eq-ok (book_levels b sides.1) _ {last = s} h6 in
    let same =
      named_market coin (not_raised (not (str_eq coin market.symbol)) value_error tested) in
    let made : OrderBookSnapshot = record {
      venue = hyperliquid;
      symbol = market.symbol;
      sequence = none;
      exchange_timestamp_ms = time;
      received_timestamp_ms = received;
      bids = bids;
      asks = asks;
    } in
    let (p, e) = admit-Passes made (market_value-ok (Market.admit made) h7) in
    subst (IsBookOf u received market response) e (record {
      of_response = record {
        payload = payload;
        is_object = is_object;
        names = subst (λ c. string_of u (get (codes "coin") payload) ≡ ok c) same named;
        times = timed;
      };
      venue = refl;
      symbol = refl;
      received_at = refl;
      unnumbered = refl;
      is_book = Passes-IsBook made p;
    })
  where
    not_false : {t : Bool} → not t ≡ false → t ≡ true
    not_false {t = true} h = refl
    not_false {t = false} h = cc

    named_market : (coin : Str) → not (str_eq coin market.symbol) ≡ false → coin ≡ market.symbol
    named_market coin h = (str_eq_iff coin market.symbol).0 (not_false h)

-- After a listing that returned, what HyperliquidPublicAdapter.order_book returns is an admitted
-- book without a sequence number, of the market that was asked for: the response names that market
-- as its coin, and the book has the response's time and the time of reception. That market is
-- equal to the one listed under its symbol, which is a perpetual of the venue: its size step is a
-- power of ten with at most six places, and the places of its prices make six with them.
pub order_book-IsQuoted :
    (u : Unicode) (b : Builtins) (mapping_for : Str → Members → Option HyperliquidInstrumentMapping)
    (listing : Json) (a : HyperliquidPublicAdapter) {t : HyperliquidPublicAdapter}
    {markets : List VenueMarket} (received : ℤ) (market : VenueMarket) (response : Json)
    {s : OrderBookSnapshot}
    → list_markets u b mapping_for listing a ≡ (t, ok markets)
    → order_book u b received market response t ≡ (t, ok s)
    → IsQuoted u t received market response s
unfolding order_book
order_book-IsQuoted u b mapping_for listing a {t} {markets} received market response {s} first h =
    let (k, known, booked) =
      >>=-eq-ok (require_market hyperliquid t.known_markets market)
        (λ known. book_of u b received market response) {last = s} (ap (λ x. x.1) h) in
    let (listed, same) = require_market-known hyperliquid t.known_markets market known in
    let book = book_of-IsBookOf u b received market response booked in
    record {
      known = k;
      listed = listed;
      same_market = same;
      perp =
          lookup-IsPerp market.symbol t.known_markets
            (list_markets-ArePerps u b mapping_for listing a first) listed;
      of_response = book.of_response;
      venue = book.venue;
      symbol = book.symbol;
      received_at = book.received_at;
      unnumbered = book.unnumbered;
      is_book = book.is_book;
    }
