-- ===== src/Reconstruction/Levels.antt =====
-- `_apply_side` of reconstruction/lighter.py: the deltas of an update, applied to one side of a book.
use liqvera.Prelude.{
  true, List, [], ◌∷◌, Option, none, some, Result, ok, ◌>>=◌, ◌≡◌, ap, ◌∙◌, sym, if◌then◌else◌,
  arith, Bool-cases, inl, inr, foldl, >>=-eq-ok, ok-injective,
}
use liqvera.Decimal.{Decimal, eq, nought}
use liqvera.Decimal.Order.{eq_comm, eq_trans}
use liqvera.Market.{Error, BookLevel, book_level}

-- price and size of a delta
abbrev pub Delta : Type 0
Delta = Decimal × Decimal

-- `[level for level in levels if level.price != price]`
unfoldable pub without : Decimal → List BookLevel → List BookLevel
without price [] = []
without price (l ∷ levels) =
    let rest = without price levels in if eq l.price price then rest else l ∷ rest

-- The search for the price, with the replacement where it is found and the append where it is not.
unfoldable pub replace_or_append : BookLevel → Decimal → List BookLevel → List BookLevel
replace_or_append new price [] = new ∷ []
replace_or_append new price (l ∷ levels) =
    let rest = replace_or_append new price levels in
    if eq l.price price then new ∷ levels else l ∷ rest

-- One round of the loop over the deltas.
unfoldable pub apply_delta : List BookLevel → Delta → Result Error (List BookLevel)
apply_delta levels (price, size) =
    if eq size nought
    then ok (without price levels)
    else do new ← book_level price size; ok (replace_or_append new price levels)

unfoldable pub apply_side : List BookLevel → List Delta → Result Error (List BookLevel)
apply_side levels [] = ok levels
apply_side levels (d ∷ deltas) = do levels' ← apply_delta levels d; apply_side levels' deltas

-- The size that a side shows at a price.
abbrev pub size_at : Decimal → List BookLevel → Option Decimal
size_at q [] = none
size_at q (l ∷ levels) = if eq l.price q then some l.quantity else size_at q levels

-- What one delta says of a price, over what was known before.
abbrev pub said : Decimal → Option Decimal → Delta → Option Decimal
said q before (price, size) =
    if eq price q then (if eq size nought then none else some size) else before

-- Prices that are equal are equal to the same prices.
pub eq_congr : (p q r : Decimal) → eq p q ≡ true → eq p r ≡ eq q r
eq_congr p q r h = elim (Bool-cases (eq q r)) [
  | inl e ↦ eq_trans p q r h e ∙ sym e
  | inr e ↦ elim (Bool-cases (eq p r)) [
    | inl f ↦ cc (e, eq_trans q p r (eq_comm q p ∙ h) f)
    | inr f ↦ f ∙ sym e
  ]
]

size_at-without :
    (q price : Decimal) (levels : List BookLevel)
    → size_at q (without price levels) ≡ (if eq price q then none else size_at q levels)
unfolding without
size_at-without q price [] = ground arith
size_at-without q price (l ∷ levels) = ground (
  arith,
  size_at-without q price levels,
  eq_congr l.price price q,
  eq_congr l.price q price,
  eq_comm q price,
)

size_at-replace :
    (q price : Decimal) (new : BookLevel) (levels : List BookLevel)
    → new.price ≡ price
    → size_at q (replace_or_append new price levels)
      ≡ (if eq price q then some new.quantity else size_at q levels)
unfolding replace_or_append
size_at-replace q price new [] e = rw e
size_at-replace q price new (l ∷ levels) e = ground (
  arith,
  size_at-replace q price new levels e,
  eq_congr l.price price q,
  eq_congr l.price q price,
  eq_comm q price,
  ap (λ p. eq p q) e,
)

book_level-fields :
    (p s : Decimal) {l : BookLevel} → book_level p s ≡ ok l → (l.price ≡ p) × (l.quantity ≡ s)
unfolding book_level
book_level-fields p s h = ground arith

size_at-apply_delta :
    (q : Decimal) (levels : List BookLevel) (d : Delta) {levels' : List BookLevel}
    → apply_delta levels d ≡ ok levels'
    → size_at q levels' ≡ said q (size_at q levels) d
unfolding apply_delta
size_at-apply_delta q levels (price, size) h = elim (Bool-cases (eq size nought)) [
  | inl e ↦ let same = ok-injective (rw e at h) in rw (e, ← same) (size_at-without q price levels)
  | inr e ↦
      let (new, made, placed) =
        >>=-eq-ok (book_level price size) (λ n. ok (replace_or_append n price levels))
          (rw e at h) in
      let (p, s) = book_level-fields price size made in
      rw (e, ← ok-injective placed) (rw (← s) (size_at-replace q price new levels p))
]

-- After an update that raises nothing, each price shows what the last delta for it says, and what
-- it showed before where there is none: a size of zero takes the level away.
pub size_at-apply_side :
    (q : Decimal) (levels : List BookLevel) (deltas : List Delta) {levels' : List BookLevel}
    → apply_side levels deltas ≡ ok levels'
    → size_at q levels' ≡ foldl (said q) (size_at q levels) deltas
unfolding apply_side
size_at-apply_side q levels [] h = ap (size_at q) (sym (ok-injective h))
size_at-apply_side q levels (d ∷ deltas) h =
    let (mid, one, rest) = >>=-eq-ok (apply_delta levels d) (λ m. apply_side m deltas) h in
    size_at-apply_side q mid deltas rest
    ∙ ap (λ t. foldl (said q) t deltas) (size_at-apply_delta q levels d one)
