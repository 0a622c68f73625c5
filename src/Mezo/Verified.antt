-- ===== src/Mezo/Verified.antt =====
-- What `verify_capture` accepts.
use liqvera.Prelude.{
  ℕ, ◌<◌, ◌≡◌, sym, ap, subst, ◌∙◌, [], ◌∷◌, ok, >>=-eq-ok, ok-injective, passed, leb, ltb, ◌==◌,
  ltb_iff, leb_iff, ==_iff,
}
use liqvera.Prelude.Int.{pos}
use liqvera.Python.{value_error, codes}
use liqvera.Python.Digits.{value}
use liqvera.Json.{Json, get, has_keys, is_text, as_text, as_object}
use liqvera.Amm.{amm_amount_out}
use liqvera.Mezo.{Texts, require, given}
use liqvera.Mezo.Dex.{
  Decoded, Side, buy, sell, Verified, uint256, reserves, token_of, decode_probe, buy_input,
  check_plan, verify_capture, side_of, is_quantity, planned_amount,
}
use liqvera.Mezo.Quoted.{
  IsDecoded, decode_probe-IsDecoded, amount_out-quoted, Planned, amount_in-planned,
}

-- The quote is the report's, and so is the plan.
pub record IsQuote (v : Verified) : Type 0 where
  pub agree : v.decoded.pool_amount_out ≡ v.decoded.router_amount_out
  pub quoted :
      let r = v.decoded in
      let (reserve_in, reserve_out) = reserves (token_of v.side) r.reserve_musd r.reserve_btc in
      amm_amount_out (pos r.amount_in) (pos reserve_in) (pos reserve_out) (pos r.fee_bps)
      ≡ ok r.router_amount_out
  pub planned : Planned v.side v.quantity_wei v.decoded

check_plan-Planned :
    (side : Side) (q : ℕ) (r : Decoded)
    → IsDecoded (token_of side) r
    → q < uint256
    → check_plan side q r ≡ ok tt
    → Planned side q r
unfolding check_plan
check_plan-Planned sell q r d small h =
    (==_iff r.amount_in q).0 (passed (r.amount_in == q) value_error h)
check_plan-Planned buy q r d small h =
    let (planned, made, h0) =
      >>=-eq-ok (buy_input q r.reserve_musd r.reserve_btc r.fee_bps) _ {last = tt} h in
    let (u, same, h1) = >>=-eq-ok (require (r.amount_in == planned)) _ {last = tt} h0 in
    let equal = (==_iff r.amount_in planned).0 (passed (r.amount_in == planned) value_error same) in
    (
      amount_in-planned q r d small (made ∙ ap (λ x. ok x) (sym equal)),
      (leb_iff q r.router_amount_out).0 (passed (leb q r.router_amount_out) value_error h1),
    )

-- Where verify_capture accepts an observation, the pool's quote and the router's are the same, and
-- they are what the report's amm_amount_out returns for the amount on the observed reserves and
-- fee. For a sale the amount is the quantity; for a purchase it is what the report's amm_amount_in
-- returns for the quantity, and the quote reaches the quantity.
pub verify_capture-IsQuote :
    (t : Texts) (raw : Json) {v : Verified} → verify_capture t raw ≡ ok v → IsQuote v
unfolding verify_capture
verify_capture-IsQuote t raw {v} h =
    let (capture, e0, h0) = >>=-eq-ok (given (as_object raw)) _ {last = v} h in
    let (u0, e1, h1) =
      >>=-eq-ok
        (require (
          has_keys
            (codes "schema"
              ∷ codes "source"
              ∷ codes "side"
              ∷ codes "quantity_wei"
              ∷ codes "probe"
              ∷ [])
            [] capture))
        _ {last = v} h0 in
    let (u1, e2, h2) =
      >>=-eq-ok
        (require (is_text (codes "liqvera-mezo-dex-capture/v1") (get (codes "schema") capture))) _
        {last = v} h1 in
    let (u2, e3, h3) =
      >>=-eq-ok
        (require (is_text (codes "mezo-dex:MUSD-BTC:testnet") (get (codes "source") capture))) _
        {last = v} h2 in
    let (side_text, e4, h4) =
      >>=-eq-ok (given (as_text (get (codes "side") capture))) _ {last = v} h3 in
    let (quantity_text, e5, h5) =
      >>=-eq-ok (given (as_text (get (codes "quantity_wei") capture))) _ {last = v} h4 in
    let (side, e6, h6) = >>=-eq-ok (side_of side_text) _ {last = v} h5 in
    let (u3, e7, h7) = >>=-eq-ok (require (is_quantity quantity_text)) _ {last = v} h6 in
    let q = value 0 quantity_text in
    let (u4, small, h8) = >>=-eq-ok (require (ltb q uint256)) _ {last = v} h7 in
    let probe = get (codes "probe") capture in
    let (amount, e8, h9) = >>=-eq-ok (planned_amount t probe) _ {last = v} h8 in
    let (r, decoded, h10) =
      >>=-eq-ok (decode_probe t probe amount (token_of side)) _ {last = v} h9 in
    let (u5, plan, made) = >>=-eq-ok (check_plan side q r) _ {last = v} h10 in
    let d = decode_probe-IsDecoded t probe amount (token_of side) decoded in
    subst IsQuote (ok-injective made) (record {
      agree = d.agree;
      quoted = amount_out-quoted (token_of side) r d;
      planned =
          check_plan-Planned side q r d
            ((ltb_iff q uint256).0 (passed (ltb q uint256) value_error small)) plan;
    })
