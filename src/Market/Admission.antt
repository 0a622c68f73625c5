-- ===== src/Market/Admission.antt =====
-- What the constructor of OrderBookSnapshot lets through. The code compares neighbours and the two
-- best prices; the facts below are about all pairs of levels.
use liqvera.Prelude.{◌≡◌, ◌↔◌, refl, true, false, List, [], ◌∷◌, ok, arith, All}
use liqvera.Python.{is_empty}
use liqvera.Decimal.{lt}
use liqvera.Decimal.Order.{lt_trans, lt_of_not_le, le-false_of_lt}
use liqvera.Market.{
  BookLevel, OrderBookSnapshot, strictly_descending, strictly_ascending, is_crossed, admit,
}

-- `x` costs less than `y`.
abbrev pub Below : BookLevel → BookLevel → Type 0
Below x y = lt x.price y.price ≡ true

abbrev pub Above : BookLevel → BookLevel → Type 0
Above x y = lt y.price x.price ≡ true

-- The relation holds between every level and every later one.
abbrev pub Pairs : (BookLevel → BookLevel → Type 0) → List BookLevel → Type 0
Pairs R [] = Unit
Pairs R (x ∷ levels) = All (R x) levels × Pairs R levels

pub record IsBook (s : OrderBookSnapshot) : Type 0 where
  pub has_bids : is_empty s.bids ≡ false
  pub has_asks : is_empty s.asks ≡ false
  pub bids_fall : Pairs Above s.bids
  pub asks_rise : Pairs Below s.asks
  pub uncrossed : All (λ b. All (Below b) s.asks) s.bids

module _ (R : BookLevel → BookLevel → Type 0)
    (trans : (x y z : BookLevel) → R x y → R y z → R x z) where
  All-trans :
      (x y : BookLevel) (levels : List BookLevel) → R x y → All (R y) levels → All (R x) levels
  All-trans x y [] h k = tt
  All-trans x y (z ∷ levels) h (k, ks) = (trans x y z h k, All-trans x y levels h ks)

  Pairs-cons :
      (x y : BookLevel) (levels : List BookLevel)
      → R x y
      → Pairs R (y ∷ levels)
      → Pairs R (x ∷ y ∷ levels)
  Pairs-cons x y levels h k = ((h, All-trans x y levels h k.0), k)

Above-trans : (x y z : BookLevel) → Above x y → Above y z → Above x z
Above-trans x y z h k = lt_trans z.price y.price x.price k h

Below-trans : (x y z : BookLevel) → Below x y → Below y z → Below x z
Below-trans x y z = lt_trans x.price y.price z.price

pub descending-Pairs :
    (levels : List BookLevel) → strictly_descending levels ≡ true → Pairs Above levels
unfolding strictly_descending
descending-Pairs [] h = tt
descending-Pairs (x ∷ []) h = (tt, tt)
descending-Pairs (x ∷ y ∷ levels) h =
    Pairs-cons Above Above-trans x y levels (ground arith)
      (descending-Pairs (y ∷ levels) (ground arith))

pub ascending-Pairs :
    (levels : List BookLevel) → strictly_ascending levels ≡ true → Pairs Below levels
unfolding strictly_ascending
ascending-Pairs [] h = tt
ascending-Pairs (x ∷ []) h = (tt, tt)
ascending-Pairs (x ∷ y ∷ levels) h =
    Pairs-cons Below Below-trans x y levels (ground arith)
      (ascending-Pairs (y ∷ levels) (ground arith))

Pairs-descending :
    (levels : List BookLevel) → Pairs Above levels → strictly_descending levels ≡ true
unfolding strictly_descending
Pairs-descending [] h = refl
Pairs-descending (x ∷ []) h = refl
Pairs-descending (x ∷ y ∷ levels) h = ground (arith, Pairs-descending (y ∷ levels) h.1)

Pairs-ascending : (levels : List BookLevel) → Pairs Below levels → strictly_ascending levels ≡ true
unfolding strictly_ascending
Pairs-ascending [] h = refl
Pairs-ascending (x ∷ []) h = refl
Pairs-ascending (x ∷ y ∷ levels) h = ground (arith, Pairs-ascending (y ∷ levels) h.1)

-- From the two best prices to all of them.
Below-asks :
    (b a : BookLevel) (asks : List BookLevel)
    → Below b a
    → All (Below a) asks
    → All (Below b) (a ∷ asks)
Below-asks b a asks h k = (h, All-trans Below Below-trans b a asks h k)

uncrossed-All :
    (b : BookLevel) (bids asks : List BookLevel)
    → All (Below b) asks
    → All (Above b) bids
    → All (λ x. All (Below x) asks) (b ∷ bids)
uncrossed-All b bids asks h k = (h, go bids k)
  where
    go : (levels : List BookLevel) → All (Above b) levels → All (λ x. All (Below x) asks) levels
    go [] p = tt
    go (x ∷ levels) (p, ps) = (All-trans Below Below-trans x b asks p h, go levels ps)

uncrossed_sides :
    (bids asks : List BookLevel)
    → is_crossed bids asks ≡ false
    → Pairs Above bids
    → Pairs Below asks
    → All (λ b. All (Below b) asks) bids
unfolding is_crossed
uncrossed_sides [] asks h p q = tt
uncrossed_sides (b ∷ bids) [] h p q = cc
uncrossed_sides (b ∷ bids) (a ∷ asks) h p q =
    uncrossed-All b bids (a ∷ asks) (Below-asks b a asks (lt_of_not_le b.price a.price h) q.0) p.0

crossed-false :
    (bids asks : List BookLevel)
    → is_empty bids ≡ false
    → is_empty asks ≡ false
    → All (λ b. All (Below b) asks) bids
    → is_crossed bids asks ≡ false
unfolding is_crossed
crossed-false [] asks h k p = cc
crossed-false (b ∷ bids) [] h k p = cc
crossed-false (b ∷ bids) (a ∷ asks) h k p = le-false_of_lt b.price a.price p.0.0

-- The four tests of the constructor, all passed.
pub record Passes (s : OrderBookSnapshot) : Type 0 where
  pub bids_there : is_empty s.bids ≡ false
  pub asks_there : is_empty s.asks ≡ false
  pub falling : strictly_descending s.bids ≡ true
  pub rising : strictly_ascending s.asks ≡ true
  pub apart : is_crossed s.bids s.asks ≡ false

pub admit-Passes :
    (s : OrderBookSnapshot) {t : OrderBookSnapshot} → admit s ≡ ok t → Passes s × (s ≡ t)
unfolding admit
admit-Passes s h = (
  record {
    bids_there = ground arith;
    asks_there = ground arith;
    falling = ground arith;
    rising = ground arith;
    apart = ground arith;
  },
  ground arith,
)

Passes-admit : (s : OrderBookSnapshot) → Passes s → admit s ≡ ok s
unfolding admit
Passes-admit s p = ground arith

pub Passes-IsBook : (s : OrderBookSnapshot) → Passes s → IsBook s
Passes-IsBook s p =
    let fall = descending-Pairs s.bids p.falling in
    let rise = ascending-Pairs s.asks p.rising in
    record {
      has_bids = p.bids_there;
      has_asks = p.asks_there;
      bids_fall = fall;
      asks_rise = rise;
      uncrossed = uncrossed_sides s.bids s.asks p.apart fall rise;
    }

-- A snapshot is admitted exactly when it is a book: both sides are there, every bid lies above all
-- later bids, every ask below all later asks, and every bid below every ask.
pub admit_iff : (s : OrderBookSnapshot) → (admit s ≡ ok s) ↔ IsBook s
admit_iff s = (
  λ h. Passes-IsBook s (admit-Passes s h).0,
  λ b. Passes-admit s (record {
    bids_there = b.has_bids;
    asks_there = b.has_asks;
    falling = Pairs-descending s.bids b.bids_fall;
    rising = Pairs-ascending s.asks b.asks_rise;
    apart = crossed-false s.bids s.asks b.has_bids b.has_asks b.uncrossed;
  }),
)
