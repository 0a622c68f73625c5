-- ===== src/Amm/Liquidation.antt =====
-- What the report of `trove_risk` says of an active trove.
use native.Mathlib.Nat.{div-mul-le_self, div-lt_iff_lt-mul, div-le_of_le-mul, mul-le-mul_left}
use liqvera.Prelude.{
  ℕ, zero, suc, ◌+◌, ◌-◌, ◌*◌, ◌/◌, ◌≤◌, ◌<◌, ◌≡◌, ◌↔◌, refl, subst, Bool, true, false, List, [],
  ◌∷◌, ◌&&◌, ◌||◌, All, ok, Bool-cases, inl, inr, >>=-eq-ok, ok-injective, not_raised, raise_if,
  ltb, ltb_iff, leb, leb_iff, ◌==◌, arith,
}
use liqvera.Prelude.Int.{abs}
use liqvera.Amm.{uint256}
use liqvera.Amm.Trove.{
  trove_invalid_input, Flag, liquidatable, recovery_mode, Trove, TroveRisk, Scenario,
  is_liquidatable, require_trove, ratio, flags_of, scenario_of, assess, trove_risk,
}

-- The flags of an active trove, over the products that the ratio stands for
pub data Flagged (r : TroveRisk) : List Flag → Type 0 where
  sound : r.mcr * r.debt ≤ r.collateral * r.price → r.ccr ≤ r.tcr → Flagged r []
  below : r.collateral * r.price < r.mcr * r.debt → r.ccr ≤ r.tcr → Flagged r (liquidatable ∷ [])
  recovering :
      r.mcr * r.debt ≤ r.collateral * r.price → r.tcr < r.ccr → Flagged r (recovery_mode ∷ [])
  below_and_recovering :
      r.collateral * r.price < r.mcr * r.debt
      → r.tcr < r.ccr
      → Flagged r (liquidatable ∷ recovery_mode ∷ [])

-- The ratio is rounded down, the comparison with the minimum is exact; a lower price makes nothing
-- better.
pub record IsAssessed (v : Trove) (r : TroveRisk) : Type 0 where
  pub debt : r.debt ≡ abs v.principal + abs v.interest
  pub collateral : r.collateral ≡ abs v.collateral
  pub price : r.price ≡ abs v.price
  pub mcr : r.mcr ≡ abs v.mcr
  pub ccr : r.ccr ≡ abs v.ccr
  pub tcr : r.tcr ≡ abs v.tcr
  pub owes : 0 < r.debt
  pub fits : r.collateral * r.price < uint256
  pub rounded_down : r.icr * r.debt ≤ r.collateral * r.price
  pub exact : (r.icr < r.mcr) ↔ (r.collateral * r.price < r.mcr * r.debt)
  pub worse :
      r.collateral * r.price < r.mcr * r.debt
      → All (λ (s : Scenario). s.status ≡ is_liquidatable) r.scenarios
  pub flagged : Flagged r r.flags

ratio-lt_iff :
    (collateral price debt mcr : ℕ)
    → 0 < debt
    → (ltb (ratio collateral price debt) mcr ≡ true) ↔ (collateral * price < mcr * debt)
unfolding ratio
ratio-lt_iff collateral price zero mcr h = absurd (omega arith)
ratio-lt_iff collateral price (suc debt) mcr h =
    let (a, b) = ltb_iff (collateral * price / suc debt) mcr in
    let (c, d) =
      div-lt_iff_lt-mul {k = suc debt} {x = collateral * price} {y = mcr} (omega arith) in
    (λ k. c (a k), λ k. b (d k))

lower : (price reduction : ℕ) → price * (100 - reduction) / 100 ≤ price
lower price reduction =
    let part : 100 - reduction ≤ 100 = omega arith in
    let below = mul-le-mul_left price part in div-le_of_le-mul 100 (omega (arith, below))

scenario-liquidatable :
    (collateral price debt mcr reduction : ℕ)
    → 0 < debt
    → collateral * price < mcr * debt
    → (scenario_of true collateral price debt mcr reduction).status ≡ is_liquidatable
unfolding scenario_of
scenario-liquidatable collateral price debt mcr reduction h short =
    let cheaper = mul-le-mul_left collateral (lower price reduction) in
    let below =
      (ratio-lt_iff collateral (price * (100 - reduction) / 100) debt mcr h).1
        (omega (arith, cheaper)) in
    rw below refl

ratio-rounded_down :
    (collateral price debt : ℕ) → 0 < debt → ratio collateral price debt * debt ≤ collateral * price
unfolding ratio
ratio-rounded_down collateral price zero h = absurd (omega arith)
ratio-rounded_down collateral price (suc debt) h = div-mul-le_self (collateral * price) (suc debt)

flags_of-Flagged :
    (r : TroveRisk)
    → (ltb r.icr r.mcr ≡ true) ↔ (r.collateral * r.price < r.mcr * r.debt)
    → Flagged r (flags_of true r.icr r.mcr r.ccr r.tcr)
unfolding flags_of
flags_of-Flagged r (under, over) = elim (Bool-cases (ltb r.icr r.mcr)) [
  | inl e ↦ elim (Bool-cases (ltb r.tcr r.ccr)) [
    | inl f ↦ rw (e, f) (below_and_recovering (under e) ((ltb_iff r.tcr r.ccr).0 f))
    | inr f ↦ rw (e, f) (below (under e) (ground arith))
  ]
  | inr e ↦
      let enough : r.mcr * r.debt ≤ r.collateral * r.price = reaches over e in
      elim (Bool-cases (ltb r.tcr r.ccr)) [
        | inl f ↦ rw (e, f) (recovering enough ((ltb_iff r.tcr r.ccr).0 f))
        | inr f ↦ rw (e, f) (sound enough (ground arith))
      ]
]
  where
    reaches : {a b : ℕ} {t : Bool} → (a < b → t ≡ true) → t ≡ false → b ≤ a
    reaches {a} {b} over e = elim (Bool-cases (leb b a)) [
      | inl k ↦ (leb_iff b a).0 k
      | inr k ↦ let short : a < b = ground arith in let t = over short in cc
    ]

assess-IsAssessed :
    (v : Trove) {r : TroveRisk}
    → assess
        (abs v.collateral)
        (abs v.principal + abs v.interest)
        (abs v.price)
        (abs v.mcr)
        (abs v.ccr)
        (abs v.tcr)
        1
      ≡ ok r
    → IsAssessed v r
unfolding assess
assess-IsAssessed v {r} h =
    let collateral = abs v.collateral in
    let debt = abs v.principal + abs v.interest in
    let price = abs v.price in
    let mcr = abs v.mcr in
    let (u, tested, made) =
      >>=-eq-ok
        (raise_if (debt == 0 || ltb 0 debt && leb uint256 (collateral * price)) trove_invalid_input)
        _ {last = r} h in
    let passed =
      not_raised (debt == 0 || ltb 0 debt && leb uint256 (collateral * price)) trove_invalid_input
        tested in
    let owes : 0 < debt = ground arith in
    let exact = ratio-lt_iff collateral price debt mcr owes in
    let (under, over) = ltb_iff (ratio collateral price debt) mcr in
    subst (IsAssessed v) (ok-injective made) (record {
      debt = refl;
      collateral = refl;
      price = refl;
      mcr = refl;
      ccr = refl;
      tcr = refl;
      owes = owes;
      fits = ground arith;
      rounded_down = ratio-rounded_down collateral price debt owes;
      exact = (λ k. exact.0 (over k), λ k. under (exact.1 k));
      worse = λ short. (
        scenario-liquidatable collateral price debt mcr 10 owes short,
        (
          scenario-liquidatable collateral price debt mcr 20 owes short,
          (scenario-liquidatable collateral price debt mcr 30 owes short, tt),
        ),
      );
      flagged = flags_of-Flagged _ exact;
    })

-- Where trove_risk returns for a status of one, the report has the arguments, with principal and
-- interest together as the debt; the trove owes something, collateral times price fits 256 bits,
-- and the ratio times the debt does not exceed that product. The ratio lies under the minimum
-- exactly when collateral times price lies under the minimum times the debt, and then each
-- scenario of a lower price is LIQUIDATABLE as well. The flags are LIQUIDATABLE exactly in that
-- case, then RECOVERY_MODE exactly where the total ratio lies under the critical one, and no
-- other.
pub trove_risk-IsAssessed :
    (v : Trove) {r : TroveRisk} → abs v.status ≡ 1 → trove_risk v ≡ ok r → IsAssessed v r
unfolding trove_risk
trove_risk-IsAssessed v {r} active h =
    let (u, tested, rest) = >>=-eq-ok (require_trove v) _ {last = r} h in
    assess-IsAssessed v (rw active at rest)
