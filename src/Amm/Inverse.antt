-- ===== src/Amm/Inverse.antt =====
-- `amm_amount_in` inverts `amm_amount_out`.
use liqvera.Prelude.{ℕ, ◌+◌, ◌*◌, ◌/◌, ◌<◌, ◌≡◌, ok, arith, >>=-eq-ok}
use liqvera.Prelude.Int.{ℤ, pos, abs}
use liqvera.Amm.{amm_inputs, net_input, checked_quote, amm_amount_out, uint256}

-- The arguments that `_amm_inputs` lets through.
pub record IsAdmitted (amount rin rout f : ℕ) : Type 0 where
  pub amount_fits : amount < uint256
  pub rin_pos : 0 < rin
  pub rin_fits : rin < uint256
  pub rout_pos : 0 < rout
  pub rout_fits : rout < uint256
  pub fee_below : f < 10_000

pub inputs-IsAdmitted :
    (a rin rout f : ℤ)
    → amm_inputs a rin rout f ≡ ok tt
    → IsAdmitted (abs a) (abs rin) (abs rout) (abs f)
unfolding amm_inputs
inputs-IsAdmitted (pos a) (pos rin) (pos rout) (pos f) h = ground arith
inputs-IsAdmitted _ _ _ _ h = ground arith

pub IsAdmitted-inputs :
    {a rin rout f : ℕ}
    → IsAdmitted a rin rout f
    → amm_inputs (pos a) (pos rin) (pos rout) (pos f) ≡ ok tt
unfolding amm_inputs
IsAdmitted-inputs h = ground arith

-- Another amount for the same pool.
pub with_amount :
    {a b rin rout f : ℕ} → b < uint256 → IsAdmitted a rin rout f → IsAdmitted b rin rout f
with_amount h v = record {
  amount_fits = h;
  rin_pos = v.rin_pos;
  rin_fits = v.rin_fits;
  rout_pos = v.rout_pos;
  rout_fits = v.rout_fits;
  fee_below = v.fee_below;
}

-- The parts of a quote that was returned.
pub record IsQuote (a rin rout f out : ℕ) : Type 0 where
  pub admitted : IsAdmitted a rin rout f
  pub fee_fits : a * f < uint256
  pub product_fits : net_input a f * rout < uint256
  pub sum_fits : rin + net_input a f < uint256
  pub value : out ≡ net_input a f * rout / (rin + net_input a f)

checked-IsQuote :
    {a rin rout f out : ℕ}
    → IsAdmitted a rin rout f
    → checked_quote a rin rout f ≡ ok out
    → IsQuote a rin rout f out
unfolding checked_quote
checked-IsQuote v h = record {
  admitted = v;
  fee_fits = ground arith;
  product_fits = ground arith;
  sum_fits = ground arith;
  value = ground arith;
}

pub out-IsQuote :
    (a rin rout f : ℤ) {out : ℕ}
    → amm_amount_out a rin rout f ≡ ok out
    → IsQuote (abs a) (abs rin) (abs rout) (abs f) out
unfolding amm_amount_out
out-IsQuote a rin rout f h =
    let (u, p, q) = >>=-eq-ok (amm_inputs a rin rout f) _ h in
    checked-IsQuote (inputs-IsAdmitted a rin rout f p) q

pub IsQuote-out :
    {a rin rout f out : ℕ}
    → IsQuote a rin rout f out
    → amm_amount_out (pos a) (pos rin) (pos rout) (pos f) ≡ ok out
unfolding amm_amount_out checked_quote
IsQuote-out q = rw (IsAdmitted-inputs q.admitted) (ground arith)
