-- ===== src/Vwap/Optimal.antt =====
-- On rising prices the sweep is the cheapest way to take a quantity from the displayed levels.
use native.Mathlib.Nat.{mul-add}
use liqvera.Prelude.Arith.{mul_mono, mul-sub-add}
use liqvera.Prelude.{
  ℕ, ◌+◌, ◌-◌, ◌*◌, ◌≤◌, ◌<◌, ◌≡◌, ap, sym, ◌∙◌, List, [], ◌∷◌, leb, All, arith, true, Bool-cases,
  inl, inr,
}
use liqvera.Vwap.Fills.{Offer, depth, cost, Fits, total, paid, Rises, cost_ge}

total-le-depth : (ts : List ℕ) (offers : List Offer) → Fits ts offers → total ts ≤ depth offers
unfolding depth
total-le-depth [] [] h = omega arith
total-le-depth [] (o ∷ offers) h = absurd h
total-le-depth (t ∷ ts) [] h = absurd h
total-le-depth (t ∷ ts) ((p, s) ∷ offers) (h, hs) = omega (arith, total-le-depth ts offers hs)

paid_ge :
    (q : ℕ) (ts : List ℕ) (offers : List Offer)
    → Fits ts offers
    → All (λ o. q ≤ o.0) offers
    → q * total ts ≤ paid ts offers
paid_ge q [] [] h b = omega arith
paid_ge q [] (o ∷ offers) h b = absurd h
paid_ge q (t ∷ ts) [] h b = absurd h
paid_ge q (t ∷ ts) ((p, s) ∷ offers) (h, hs) (low, b) =
    let rest = paid_ge q ts offers hs b in
    let here = mul_mono q p t low in omega (arith, mul-add q t (total ts))

-- `d` units more cost at least the lowest price each.
cost_more :
    (q a d : ℕ) (offers : List Offer)
    → a + d ≤ depth offers
    → All (λ o. q ≤ o.0) offers
    → cost a offers + q * d ≤ cost (a + d) offers
unfolding cost depth
cost_more q a d [] h b = let z : d ≡ 0 = omega arith in rw z (omega arith)
cost_more q a d ((p, s) ∷ offers) h (low, b) = elim (Bool-cases (leb (a + d) s)) [
  | inl e ↦
      let f : leb a s ≡ true = ground arith in
      rw (e, f) (omega (arith, mul_mono q p d low, mul-add p a d))
  | inr e ↦ elim (Bool-cases (leb a s)) [
    | inl f ↦
        rw (e, f)
          (let rest = cost_ge q (a + d - s) offers (omega arith) b in
            let here = mul_mono q p (s - a) low in
            let x = mul-sub-add p s a (ground arith) in
            let y : q * (a + d - s) + q * (s - a) ≡ q * d =
              sym (mul-add q (a + d - s) (s - a)) ∙ ap (λ t. q * t) (ground arith) in
            omega arith)
    | inr f ↦
        rw (e, f)
          (let same : a + d - s ≡ a - s + d = ground arith in
            let rest = cost_more q (a - s) d offers (ground arith) b in rw same (omega arith))
  ]
]

-- No other way to take the same quantity costs less.
pub cost_optimal :
    (ts : List ℕ) (offers : List Offer)
    → Fits ts offers
    → Rises offers
    → cost (total ts) offers ≤ paid ts offers
unfolding cost
cost_optimal [] [] h r = omega arith
cost_optimal [] (o ∷ offers) h r = absurd h
cost_optimal (t ∷ ts) [] h r = absurd h
cost_optimal (t ∷ ts) ((p, s) ∷ offers) (h, hs) (low, r) =
    elim (Bool-cases (leb (t + total ts) s)) [
      | inl e ↦ rw e (omega (arith, paid_ge p ts offers hs low, mul-add p t (total ts)))
      | inr e ↦ rw e (
          let rest = cost_optimal ts offers hs r in
          let over : s < t + total ts = ground arith in
          let more =
            cost_more p (t + total ts - s) (s - t) offers
              (omega (arith, total-le-depth ts offers hs)) low in
          let same : t + total ts - s + (s - t) ≡ total ts = omega arith in
          let x = mul-sub-add p s t h in let m = rw same at more in omega arith)
    ]
