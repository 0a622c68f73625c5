-- ===== src/Amm/Theorems.antt =====
-- What the two quotes promise, over every input that they accept.
use liqvera.Prelude.{
  ℕ, ◌+◌, ◌-◌, ◌*◌, ◌/◌, ◌≤◌, ◌<◌, ◌≡◌, refl, subst, ok, arith, Bool-cases, inl, inr, ◌==◌,
  >>=-eq-ok, ok-injective, leb, ◌↔◌,
}
use liqvera.Prelude.Int.{ℤ, pos, abs}
use liqvera.Amm.{
  amm_inputs, net_input, amm_amount_out, required_net, inverse_amount, checked_inverse,
  amm_amount_in,
}
use liqvera.Amm.Quote.{
  quote-lt, quote-le, product-le, quote-reaches_iff, required_net_pos, net-reaches_iff, net-le,
  net_mono,
}
use liqvera.Amm.Inverse.{
  IsAdmitted, IsQuote, inputs-IsAdmitted, IsAdmitted-inputs, out-IsQuote, IsQuote-out, with_amount,
}
use native.Mathlib.Nat.{zero-mul, zero-div}

-- A quote leaves something in the pool, and the product of the reserves does not fall.
pub amm_amount_out-invariant :
    (a rin rout f : ℤ) {out : ℕ}
    → amm_amount_out a rin rout f ≡ ok out
    → (out < abs rout) × (abs rin * abs rout ≤ (abs rin + abs a) * (abs rout - out))
amm_amount_out-invariant a rin rout f {out} h =
    let q = out-IsQuote a rin rout f h in
    let n = net_input (abs a) (abs f) in
    let below : out < abs rout =
      rw q.value (quote-lt n (abs rin) (abs rout) q.admitted.rin_pos q.admitted.rout_pos) in
    let kept =
      product-le n (abs rin) (abs rout) out (omega arith)
        (rw q.value (quote-le n (abs rin) (abs rout))) in
    let net : n ≤ abs a = net-le (abs a) (abs f) in (below, grind arith)

module _ (q rin rout f : ℕ) (positive : 0 < q) (below : q < rout) (rin_pos : 0 < rin)
    (fee : f < 10_000) where
  -- An input reaches the quantity exactly from the inverse amount on.
  reaches_iff :
      (a : ℕ)
      → (q ≤ net_input a f * rout / (rin + net_input a f)) ↔ (inverse_amount q rin rout f ≤ a)
  unfolding inverse_amount
  reaches_iff a =
      let e = quote-reaches_iff q (net_input a f) rin rout rin_pos below in
      let g =
        net-reaches_iff (required_net q rin rout) a f
          (required_net_pos q rin rout positive rin_pos below) fee in
      (λ p. g.0 (e.0 p), λ p. e.1 (g.1 p))

-- The two ways in which the inverse returns.
data IsInverse (q rin rout f : ℕ) : ℕ → Type 0 where
  nothing : {a : ℕ} → q ≡ 0 → a ≡ 0 → IsInverse q rin rout f a
  bought :
      {a out : ℕ}
      → 0 < q
      → q < rout
      → a ≡ inverse_amount q rin rout f
      → IsQuote a rin rout f out
      → IsInverse q rin rout f a

checked-IsInverse :
    (q rin rout f : ℕ) {a : ℕ} → checked_inverse q rin rout f ≡ ok a → IsInverse q rin rout f a
unfolding checked_inverse
checked-IsInverse q rin rout f {a} h = elim (Bool-cases (leb rout q)) [
  | inl l ↦ cc
  | inr g ↦ elim (Bool-cases (q == 0)) [
    | inl z ↦ nothing (ground arith) (ground arith)
    | inr p ↦
        let b = inverse_amount q rin rout f in
        let (out, e, r) =
          >>=-eq-ok (amm_amount_out (pos b) (pos rin) (pos rout) (pos f)) (λ _. ok b) {last = a}
            (ground arith) in
        bought (ground arith) (ground arith) (ground arith) (
          subst (λ t. IsQuote t rin rout f out) (ok-injective r)
            (out-IsQuote (pos b) (pos rin) (pos rout) (pos f) e))
  ]
]

in-IsInverse :
    (q rin rout f : ℤ) {a : ℕ}
    → amm_amount_in q rin rout f ≡ ok a
    → IsAdmitted (abs q) (abs rin) (abs rout) (abs f)
      × IsInverse (abs q) (abs rin) (abs rout) (abs f) a
unfolding amm_amount_in
in-IsInverse q rin rout f {a} h =
    let (u, p, r) = >>=-eq-ok (amm_inputs q rin rout f) _ {last = a} h in
    (inputs-IsAdmitted q rin rout f p, checked-IsInverse (abs q) (abs rin) (abs rout) (abs f) r)

-- Nothing is quoted for nothing.
zero-IsQuote : {q rin rout f : ℕ} → IsAdmitted q rin rout f → IsQuote 0 rin rout f 0
zero-IsQuote {rin = rin} {rout = rout} {f = f} v =
    let n : net_input 0 f ≡ 0 = omega (arith, net-le 0 f) in
    record {
      admitted = with_amount (omega arith) v;
      fee_fits = rw zero-mul (omega arith);
      product_fits = rw (n, zero-mul) (omega arith);
      sum_fits = omega (arith, v.rin_fits);
      value = rw (n, zero-mul, zero-div);
    }

-- For every amount that amm_amount_in returns on arguments that are not negative, amm_amount_out
-- returns a quote that reaches the quantity asked for.
pub amm_amount_in-reaches :
    (q rin rout f : ℕ) {a : ℕ}
    → amm_amount_in (pos q) (pos rin) (pos rout) (pos f) ≡ ok a
    → (out : ℕ) × (amm_amount_out (pos a) (pos rin) (pos rout) (pos f) ≡ ok out) × (q ≤ out)
amm_amount_in-reaches q rin rout f {a} h =
    let (v, i) = in-IsInverse (pos q) (pos rin) (pos rout) (pos f) h in go v i
  where
    go :
        IsAdmitted q rin rout f
        → IsInverse q rin rout f a
        → (out : ℕ) × (amm_amount_out (pos a) (pos rin) (pos rout) (pos f) ≡ ok out) × (q ≤ out)
    go v (nothing z e) = (0, rw e (IsQuote-out (zero-IsQuote v)), omega arith)
    go v (bought {out = out} p l e iq) = (
      out,
      IsQuote-out iq,
      rw iq.value ((reaches_iff q rin rout f p l v.rin_pos v.fee_below a).1 (omega arith)),
    )

-- An input whose quote reaches the quantity asked for is no smaller than what amm_amount_in
-- returns.
pub amm_amount_in-minimal :
    (q rin rout f : ℤ) {a b out : ℕ}
    → amm_amount_in q rin rout f ≡ ok a
    → amm_amount_out (pos b) rin rout f ≡ ok out
    → abs q ≤ out
    → a ≤ b
amm_amount_in-minimal q rin rout f {a} {b} {out} h k r =
    let (v, i) = in-IsInverse q rin rout f h in go v i (out-IsQuote (pos b) rin rout f k)
  where
    go :
        IsAdmitted (abs q) (abs rin) (abs rout) (abs f)
        → IsInverse (abs q) (abs rin) (abs rout) (abs f) a
        → IsQuote b (abs rin) (abs rout) (abs f) out
        → a ≤ b
    go v (nothing z e) w = omega arith
    go v (bought p l e iq) w = rw e (
        (reaches_iff (abs q) (abs rin) (abs rout) (abs f) p l v.rin_pos v.fee_below b).0
          (rw (← w.value) r))

-- A smaller input has a quote wherever a larger one has.
smaller-IsQuote :
    {a b rin rout f out : ℕ}
    → b ≤ a
    → IsQuote a rin rout f out
    → IsQuote b rin rout f (net_input b f * rout / (rin + net_input b f))
smaller-IsQuote {a} {b} {rin} {rout} {f} h w =
    let n = net_mono b a f h w.admitted.fee_below in
    record {
      admitted = with_amount (omega (arith, w.admitted.amount_fits)) w.admitted;
      fee_fits = let m : b * f ≤ a * f = grind arith in omega (arith, w.fee_fits);
      product_fits =
          let m : net_input b f * rout ≤ net_input a f * rout = grind arith in
          omega (arith, w.product_fits);
      sum_fits = omega (arith, w.sum_fits);
      value = refl;
    }

-- What a quote pays out can be asked for: amm_amount_in returns an amount for it, which is no more
-- than what was paid in.
pub amm_amount_in-amm_amount_out :
    (a rin rout f : ℕ) {out : ℕ}
    → amm_amount_out (pos a) (pos rin) (pos rout) (pos f) ≡ ok out
    → (b : ℕ) × (amm_amount_in (pos out) (pos rin) (pos rout) (pos f) ≡ ok b) × (b ≤ a)
unfolding amm_amount_in checked_inverse
amm_amount_in-amm_amount_out a rin rout f {out} h =
    let w = out-IsQuote (pos a) (pos rin) (pos rout) (pos f) h in
    let below = (amm_amount_out-invariant (pos a) (pos rin) (pos rout) (pos f) h).0 in
    let v : IsAdmitted out rin rout f =
      with_amount (omega (arith, w.admitted.rout_fits)) w.admitted in
    elim (Bool-cases (out == 0)) [
      | inl z ↦ (0, rw (IsAdmitted-inputs v) (ground arith), omega arith)
      | inr p ↦
          let least =
            (reaches_iff out rin rout f (ground arith) below v.rin_pos v.fee_below a).0
              (omega (arith, w.value)) in
          (
            inverse_amount out rin rout f,
            rw (IsAdmitted-inputs v) (ground (arith, IsQuote-out (smaller-IsQuote least w))),
            least,
          )
    ]
