-- ===== src/Capture/Prices.antt =====
-- What a side of the reducer's book shows at a price.
use liqvera.Prelude.{
  ◌≡◌, refl, ap, sym, ◌∙◌, List, [], ◌∷◌, Option, none, some, Result, ok, if◌then◌else◌, arith,
  foldl, Bool-cases, inl, inr, ◌>>=◌,
}
use liqvera.Prelude.Action.{call-eq-ok, modify-eq}
use liqvera.Python.{Raised, Unicode}
use liqvera.Decimal.{Decimal, eq, nought}
use liqvera.Decimal.Order.{eq_comm}
use liqvera.Json.{Items, no_items, item}
use liqvera.Json.Builtins.{Builtins}
use liqvera.Reconstruction.Levels.{Delta, said, eq_congr}
use liqvera.Capture.Reducer.{Levels, pop, put, put_or_pop, read_level, apply_items}

abbrev pub shown : Decimal → Levels → Option Decimal
shown q [] = none
shown q ((p, s) ∷ levels) = if eq p q then some s else shown q levels

shown-pop :
    (q price : Decimal) (levels : Levels)
    → shown q (pop price levels) ≡ (if eq price q then none else shown q levels)
unfolding pop
shown-pop q price [] = ground arith
shown-pop q price ((p, s) ∷ levels) =
    ground
      (arith, shown-pop q price levels, eq_congr p price q, eq_congr p q price, eq_comm q price)

shown-put :
    (q price size : Decimal) (levels : Levels)
    → shown q (put price size levels) ≡ (if eq price q then some size else shown q levels)
unfolding put
shown-put q price size [] = refl
shown-put q price size ((p, s) ∷ levels) =
    ground (
      arith,
      shown-put q price size levels,
      eq_congr p price q,
      eq_congr p q price,
      eq_comm q price,
    )

shown-put_or_pop :
    (q : Decimal) (d : Delta) (levels : Levels)
    → shown q (put_or_pop d levels) ≡ said q (shown q levels) d
shown-put_or_pop q (price, size) levels = elim (Bool-cases (eq size nought)) [
  | inl e ↦ rw e (shown-pop q price levels)
  | inr e ↦ rw e (shown-put q price size levels)
]

-- The deltas that the items say, read before any is applied.
abbrev pub read_items : Unicode → Builtins → Items → Result Raised (List Delta)
read_items u b no_items = ok []
read_items u b (item raw rest) =
    read_level u b raw >>= λ d. read_items u b rest >>= λ ds. ok (d ∷ ds)

-- The side shows at every price what the items say of it.
pub record Shows (u : Unicode) (b : Builtins) (items : Items) (before behind : Levels)
    : Type 0 where
  pub deltas : List Delta
  pub read : read_items u b items ≡ ok deltas
  pub at_price : (q : Decimal) → shown q behind ≡ foldl (said q) (shown q before) deltas

-- Where the loop of _apply_levels returns, every item was a level, and the side shows at every
-- price what the last level of the message for that price says, a size of zero for none, and what
-- it showed before where there is none. The dictionary refines the map from prices to sizes that
-- Reconstruction.Levels holds the analyzer's own update against.
pub apply_items-Shows :
    (u : Unicode) (b : Builtins) (items : Items) (before : Levels) {behind : Levels}
    → apply_items u b items before ≡ (behind, ok tt)
    → Shows u b items before behind
unfolding apply_items
apply_items-Shows u b no_items before h = record {
  deltas = [];
  read = refl;
  at_price = λ q. ap (λ x. shown q x.0) (sym h);
}
apply_items-Shows u b (item raw rest) before {behind} h =
    let (d, one, h0) = call-eq-ok (read_level u b raw) _ before h in
    let others =
      apply_items-Shows u b rest (put_or_pop d before)
        (sym (modify-eq (put_or_pop d) (apply_items u b rest) before) ∙ h0) in
    record {
      deltas = d ∷ others.deltas;
      read = rw (one, others.read) refl;
      at_price = λ q.
          others.at_price q
          ∙ ap (λ t. foldl (said q) t others.deltas) (shown-put_or_pop q d before);
    }
