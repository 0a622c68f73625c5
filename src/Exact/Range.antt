-- ===== src/Exact/Range.antt =====
-- Every value that the module builds fits a signed 64-bit integer.
use liqvera.Prelude.{◌≤◌, ◌≡◌, Bool, List, [], ◌∷◌, ok, arith, Ensures, ensured}
use liqvera.Prelude.Int.{ℤ, pos_part, neg_part}
use liqvera.Python.{Str, Unicode}
use liqvera.Exact.{ExactDecimal, make, parse_parts, parse, max_scaled, min_magnitude}

-- The range of an int64.
pub record IsInt64 (z : ℤ) : Type 0 where
  pub above : neg_part z ≤ min_magnitude
  pub below : pos_part z ≤ max_scaled

pub make-IsInt64 : (z : ℤ) {e : ExactDecimal} → make z ≡ ok e → (e.scaled ≡ z) × IsInt64 e.scaled
unfolding make
make-IsInt64 z h = ground arith

pub IsInt64-make : (z : ℤ) → IsInt64 z → make z ≡ ok (record { scaled = z })
unfolding make
IsInt64-make z h = ground arith

make-Ensures : (z : ℤ) → Ensures (λ e. IsInt64 e.scaled) (make z)
make-Ensures z = record { holds = λ e h. (make-IsInt64 z h).1 }

ruleset in_range = (ensured, make-Ensures)

parse_parts-Ensures :
    (u : Unicode) (n : Bool) (parts : List Str)
    → Ensures (λ e. IsInt64 e.scaled) (parse_parts u n parts)
unfolding parse_parts
parse_parts-Ensures u n [] = search in_range
parse_parts-Ensures u n (w ∷ []) = search in_range depth 8
parse_parts-Ensures u n (w ∷ f ∷ []) = search in_range depth 12
parse_parts-Ensures u n (w ∷ f ∷ x ∷ r) = search in_range

-- Whatever text is parsed, the value fits an int64.
pub parse-IsInt64 :
    (u : Unicode) (raw : Str) {e : ExactDecimal} → parse u raw ≡ ok e → IsInt64 e.scaled
parse-IsInt64 u raw {e} = (go u raw).holds e
  where
    go : (u : Unicode) (raw : Str) → Ensures (λ x. IsInt64 x.scaled) (parse u raw)
    go u raw = unfold parse in search (in_range, parse_parts-Ensures) depth 8
