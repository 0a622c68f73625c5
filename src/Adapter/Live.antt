-- ===== src/Adapter/Live.antt =====
-- A message that gives a snapshot makes the book available.
use liqvera.Prelude.{◌≡◌, refl, ap, subst, ◌∙◌, Option, some, Result, ok, err, if◌then◌else◌}
use liqvera.Prelude.Int.{ℤ}
use liqvera.Prelude.Action.{call-eq-ok, >>=-call, >>=-step, ◌>>=◌, self}
use liqvera.Python.{Str, Raised, value_error, Unicode}
use liqvera.Json.{Members}
use liqvera.Json.Builtins.{Builtins}
use liqvera.Market.{OrderBookSnapshot}
use liqvera.Market.Venue.{VenueMarket}
use liqvera.Capture.Walk.{IsWay, step-Leads}
use liqvera.Capture.Reducer.{LighterBookReducer, apply, snapshot, snapshot_of, closing}
use liqvera.Adapter.{KnownMarket, lookup, assign, require_market}
use liqvera.Adapter.Details.{lighter}
use liqvera.Adapter.Lighter.{
  LighterPublicAdapter, served, order_book, reducer_for, keep, reduce, apply_order_book_message,
}
use liqvera.Adapter.Served.{lookup-assign, snapshot_of-IsBuilt}

-- Where a snapshot was given, the object gives it again.
Again : ℤ → LighterBookReducer → Result Raised (Option OrderBookSnapshot) → Type 0
Again received t x =
    (s : OrderBookSnapshot)
    → x ≡ ok (some s)
    → snapshot_of received t t.unavailable t.nonce t.timestamp_ms ≡ ok s

again : (received : ℤ) (r : LighterBookReducer) → IsWay received r (Again received)
unfolding Again
again received r = record {
  raising = λ t e s h. cc;
  skipping = λ s h. cc;
  breaking = λ t e s h. cc;
  giving = λ t s made x h. (let same : s ≡ x = cc in made ∙ ap (λ y. ok y) same);
}

closing-Again :
    (received : ℤ) (x : LighterBookReducer × Result Raised (Option OrderBookSnapshot))
    → Again received x.0 x.1
    → Again received (closing x).0 (closing x).1
unfolding Again
closing-Again received (r, ok s) h t q = h t q
closing-Again received (r, err e) h s q = cc

apply-Again :
    (u : Unicode) (b : Builtins) (received : ℤ) (message : Members) (r : LighterBookReducer)
    → Again received (apply u b received message r).0 (apply u b received message r).1
unfolding apply
apply-Again u b received message r =
    let step = step-Leads r u b received message (again received r) in
    closing-Again received _ step.holds

keep-eq :
    {A : Type 0} (symbol : Str) (a : LighterPublicAdapter)
    (x : LighterBookReducer × Result Raised A) {t : LighterPublicAdapter} {o : Result Raised A}
    → keep symbol a x ≡ (t, o)
    → (record a { books = assign symbol x.0 a.books } ≡ t) × (x.1 ≡ o)
keep-eq symbol a (r, outcome) h = (ap (λ y. y.0) h, ap (λ y. y.1) h)

served-ok :
    (received : ℤ) (r : LighterBookReducer) {s : OrderBookSnapshot}
    → snapshot_of received r r.unavailable r.nonce r.timestamp_ms ≡ ok s
    → served received (some r) ≡ ok s
unfolding served snapshot
served-ok received r {s} h =
    let available = (snapshot_of-IsBuilt received r r.unavailable r.nonce r.timestamp_ms h).0 in
    ap
      (λ b.
        if b then err value_error else snapshot_of received r r.unavailable r.nonce r.timestamp_ms)
      available
    ∙ h

served_next :
    (received : ℤ) (market : VenueMarket) (a : LighterPublicAdapter) (k : KnownMarket)
    (r : LighterBookReducer) {s : OrderBookSnapshot}
    → require_market lighter a.known market ≡ ok k
    → snapshot_of received r r.unavailable r.nonce r.timestamp_ms ≡ ok s
    → let t : LighterPublicAdapter = record a { books = assign market.symbol r a.books } in
      order_book received market t ≡ (t, ok s)
unfolding order_book
served_next received market a k r known given =
    let t : LighterPublicAdapter = record a { books = assign market.symbol r a.books } in
    >>=-step self _ t refl
    ∙ >>=-call (require_market lighter a.known market) _ t known
    ∙ ap (λ o. (t, served received o)) (lookup-assign market.symbol r a.books)
    ∙ ap (λ x. (t, x)) (served-ok received r given)

-- Where a message gave a snapshot of a market, the adapter's order_book at the same reading of the
-- clock returns the same snapshot of it, and changes nothing.
pub apply_order_book_message-order_book :
    (u : Unicode) (b : Builtins) (received : ℤ) (market : VenueMarket) (message : Members)
    (a : LighterPublicAdapter) {t : LighterPublicAdapter} {s : OrderBookSnapshot}
    → apply_order_book_message u b received market message a ≡ (t, ok (some s))
    → order_book received market t ≡ (t, ok s)
unfolding apply_order_book_message reduce require_market ◌>>=◌ Again
apply_order_book_message-order_book u b received market message a {t} {s} h =
    let (k, known, h0) =
      call-eq-ok (require_market lighter a.known market)
        (λ known. reduce u b received market.symbol known.index message) a {t = t} {b = some s} h in
    let r = reducer_for market.symbol k.index (lookup market.symbol a.books) in
    let (left, outcome) = keep-eq market.symbol a (apply u b received message r) h0 in
    subst (λ x. order_book received market x ≡ (x, ok s)) left
      (served_next received market a k (apply u b received message r).0 known
        (apply-Again u b received message r s outcome))
