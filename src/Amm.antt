-- ===== src/Amm.antt =====
-- The volatile pool's quotes: `_amm_inputs`, `amm_amount_out` and `amm_amount_in` of
-- packages/evidence-report/src/liqvera_evidence_report/calculation.py. Arguments are Python
-- integers, signed and unbounded; past the guard they are read by `abs`.
pub mod Quote
pub mod Inverse
pub mod Theorems
pub mod Trove
pub mod Liquidation
use liqvera.Prelude.{
  ℕ, ◌+◌, ◌-◌, ◌*◌, ◌/◌, ◌^◌, ◌&&◌, ◌||◌, not, ltb, leb, ◌==◌, if◌then◌else◌, Result, ok, err,
  ◌>>=◌, ◌>>◌, raise_if,
}
use liqvera.Prelude.Int.{ℤ, pos, abs, ltb_ℤ, leb_ℤ}

-- The texts of the ValueErrors.
pub data Error : Type 0 where
  invalid_input arithmetic_overflow insufficient_liquidity : Error

-- 2**256
abbrev pub uint256 : ℕ
uint256 = 2 ^ 256

-- The guard of `_amm_inputs`; the test on the types holds by typing.
unfoldable pub amm_inputs : ℤ → ℤ → ℤ → ℤ → Result Error (Unit {0})
amm_inputs amount reserve_in reserve_out fee_bps =
    raise_if
      (not (leb_ℤ (pos 0) amount && ltb_ℤ amount (pos uint256))
        || not (ltb_ℤ (pos 0) reserve_in && ltb_ℤ reserve_in (pos uint256))
        || not (ltb_ℤ (pos 0) reserve_out && ltb_ℤ reserve_out (pos uint256))
        || not (leb_ℤ (pos 0) fee_bps && ltb_ℤ fee_bps (pos 10_000)))
      invalid_input

-- What is left of the input when the truncated fee is taken off.
unfoldable pub net_input : ℕ → ℕ → ℕ
net_input amount fee_bps = amount - amount * fee_bps / 10_000

-- The rest of `amm_amount_out`, behind the guard.
unfoldable pub checked_quote : ℕ → ℕ → ℕ → ℕ → Result Error ℕ
checked_quote amount reserve_in reserve_out fee_bps = do
  raise_if (leb uint256 (amount * fee_bps)) arithmetic_overflow
  let net = net_input amount fee_bps
  raise_if (leb uint256 (net * reserve_out) || leb uint256 (reserve_in + net)) arithmetic_overflow
  ok (net * reserve_out / (reserve_in + net))

unfoldable pub amm_amount_out : ℤ → ℤ → ℤ → ℤ → Result Error ℕ
amm_amount_out amount reserve_in reserve_out fee_bps = do
  amm_inputs amount reserve_in reserve_out fee_bps
  checked_quote (abs amount) (abs reserve_in) (abs reserve_out) (abs fee_bps)

-- `required_net` of `amm_amount_in`: a rounded-up division.
unfoldable pub required_net : ℕ → ℕ → ℕ → ℕ
required_net quantity reserve_in reserve_out =
    let denominator = reserve_out - quantity in
    (quantity * reserve_in + denominator - 1) / denominator

-- `amount` of `amm_amount_in`.
unfoldable pub inverse_amount : ℕ → ℕ → ℕ → ℕ → ℕ
inverse_amount quantity reserve_in reserve_out fee_bps =
    (required_net quantity reserve_in reserve_out - 1) * 10_000 / (10_000 - fee_bps) + 1

-- The rest of `amm_amount_in`, behind the guard.
unfoldable pub checked_inverse : ℕ → ℕ → ℕ → ℕ → Result Error ℕ
checked_inverse quantity reserve_in reserve_out fee_bps = do
  raise_if (leb reserve_out quantity) insufficient_liquidity
  if quantity == 0 then ok 0 else do
    let amount = inverse_amount quantity reserve_in reserve_out fee_bps
    _ ← amm_amount_out (pos amount) (pos reserve_in) (pos reserve_out) (pos fee_bps)
    ok amount

unfoldable pub amm_amount_in : ℤ → ℤ → ℤ → ℤ → Result Error ℕ
amm_amount_in quantity reserve_in reserve_out fee_bps = do
  amm_inputs quantity reserve_in reserve_out fee_bps
  checked_inverse (abs quantity) (abs reserve_in) (abs reserve_out) (abs fee_bps)
