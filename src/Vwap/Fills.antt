-- ===== src/Vwap/Fills.antt =====
-- A sweep over displayed levels, as arithmetic on the scaled prices and sizes: the reference that the
-- loop of `sweep_depth` is held against.
use liqvera.Prelude.Arith.{mul_mono, mul-sub-add}
use liqvera.Prelude.{
  ℕ, suc, ◌+◌, ◌-◌, ◌*◌, ◌≤◌, ◌<◌, ◌≡◌, List, [], ◌∷◌, leb, if◌then◌else◌, All, arith, Bool-cases,
  inl, inr,
}

-- price and size of a level
abbrev pub Offer : Type 0
Offer = ℕ × ℕ

unfoldable pub depth : List Offer → ℕ
depth [] = 0
depth ((p, s) ∷ offers) = s + depth offers

-- What `r` units cost.
unfoldable pub cost : ℕ → List Offer → ℕ
cost r [] = 0
cost r ((p, s) ∷ offers) = let rest = cost (r - s) offers in if leb r s then p * r else p * s + rest

-- The price of the last level that is used.
unfoldable pub worst : ℕ → List Offer → ℕ
worst r [] = 0
worst r ((p, s) ∷ offers) = let rest = worst (r - s) offers in if leb r s then p else rest

-- The number of levels that are used.
unfoldable pub touched : ℕ → List Offer → ℕ
touched r [] = 0
touched r ((p, s) ∷ offers) = let rest = touched (r - s) offers in if leb r s then 1 else suc rest

-- An allocation takes no more than each level shows.
abbrev pub Fits : List ℕ → List Offer → Type 0
Fits [] [] = Unit
Fits (t ∷ ts) ((p, s) ∷ offers) = (t ≤ s) × Fits ts offers
Fits _ _ = ⊥

abbrev pub total : List ℕ → ℕ
total [] = 0
total (t ∷ ts) = t + total ts

abbrev pub paid : List ℕ → List Offer → ℕ
paid (t ∷ ts) ((p, s) ∷ offers) = p * t + paid ts offers
paid _ _ = 0

-- Prices rise, or fall, along the levels.
abbrev pub Rises : List Offer → Type 0
Rises [] = Unit
Rises ((p, s) ∷ offers) = All (λ o. p ≤ o.0) offers × Rises offers

abbrev pub Falls : List Offer → Type 0
Falls [] = Unit
Falls ((p, s) ∷ offers) = All (λ o. o.0 ≤ p) offers × Falls offers

-- A price that no level undercuts bounds the cost from below.
pub cost_ge :
    (q r : ℕ) (offers : List Offer)
    → r ≤ depth offers
    → All (λ o. q ≤ o.0) offers
    → q * r ≤ cost r offers
unfolding depth cost
cost_ge q r [] h b = let z : r ≡ 0 = omega arith in rw z (omega arith)
cost_ge q r ((p, s) ∷ offers) h (low, b) = elim (Bool-cases (leb r s)) [
  | inl e ↦ rw e (mul_mono q p r low)
  | inr e ↦ rw e (
      let rest = cost_ge q (r - s) offers (omega arith) b in
      let here = mul_mono q p s low in
      let split : q * (r - s) + q * s ≡ q * r = mul-sub-add q r s (ground arith) in omega arith)
]

-- A price that no level exceeds bounds it from above.
pub cost_le :
    (q r : ℕ) (offers : List Offer)
    → r ≤ depth offers
    → All (λ o. o.0 ≤ q) offers
    → cost r offers ≤ q * r
unfolding depth cost
cost_le q r [] h b = omega arith
cost_le q r ((p, s) ∷ offers) h (high, b) = elim (Bool-cases (leb r s)) [
  | inl e ↦ rw e (mul_mono p q r high)
  | inr e ↦ rw e (
      let rest = cost_le q (r - s) offers (omega arith) b in
      let here = mul_mono p q s high in
      let split : q * (r - s) + q * s ≡ q * r = mul-sub-add q r s (ground arith) in omega arith)
]

pub worst_ge :
    (q r : ℕ) (offers : List Offer)
    → 0 < r
    → r ≤ depth offers
    → All (λ o. q ≤ o.0) offers
    → q ≤ worst r offers
unfolding depth worst
worst_ge q r [] pos h b = absurd (omega arith)
worst_ge q r ((p, s) ∷ offers) pos h (low, b) = elim (Bool-cases (leb r s)) [
  | inl e ↦ rw e low
  | inr e ↦ rw e (worst_ge q (r - s) offers (ground arith) (omega arith) b)
]

-- On rising prices the last price used bounds the cost.
pub cost_le_worst :
    (r : ℕ) (offers : List Offer)
    → r ≤ depth offers
    → Rises offers
    → cost r offers ≤ worst r offers * r
unfolding depth cost worst
cost_le_worst r [] h b = omega arith
cost_le_worst r ((p, s) ∷ offers) h (low, b) = elim (Bool-cases (leb r s)) [
  | inl e ↦ rw e (omega arith)
  | inr e ↦ rw e (
      let w : ℕ = worst (r - s) offers in
      let rest = cost_le_worst (r - s) offers (omega arith) b in
      let here = mul_mono p w s (worst_ge p (r - s) offers (ground arith) (omega arith) low) in
      let split : w * (r - s) + w * s ≡ w * r = mul-sub-add w r s (ground arith) in omega arith)
]
