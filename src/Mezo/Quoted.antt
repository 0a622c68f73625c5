-- ===== src/Mezo/Quoted.antt =====
-- The quotes of an observation that was accepted are those of the report's formulas.
use liqvera.Prelude.{
  ℕ, ◌≤◌, ◌<◌, ◌≡◌, refl, sym, ap, subst, ◌∙◌, Bool, true, false, not, List, [], ◌∷◌, All, arith,
  ok, >>=-eq-ok, ok-injective, passed, leb, ltb, ◌==◌, ◌&&◌, ltb_iff, ◌++◌,
}
use liqvera.Prelude.Int.{ℤ, pos, negsuc, leb_ℤ}
use liqvera.Python.{Str, value_error, codes, drop, zeros}
use liqvera.Json.{Json, find, get, keys, is_text, as_object, member_of}
use liqvera.Amm.{
  amm_inputs, net_input, checked_quote, amm_amount_out, amm_amount_in, checked_inverse,
  inverse_amount, required_net,
}
use liqvera.Mezo.{given, at, result_at, Texts, require, Calls, word, address_word, hex_value}
use liqvera.Mezo.Words.{words_of-lt}
use liqvera.Mezo.Dex.{
  Token, btc_token, musd_token, Pool, Decoded, Side, buy, sell, uint256, reserves, check_quotes,
  read_pool, read_quotes, decode_probe, buy_input, word_at, words, three_words, pool, musd, btc,
  factory, admitted, routed, router, router_calldata, address_of, read_header, read_calls,
}

-- The tests of `check_quotes`, which are those of `checked_quote`
check_quotes-checked :
    (a rin rout fee p r : ℕ)
    → check_quotes a rin rout fee p r ≡ ok tt
    → (checked_quote a rin rout fee ≡ ok r) × (p ≡ r)
unfolding check_quotes checked_quote net_input
check_quotes-checked a rin rout fee p r h = ground arith

amm_inputs-ok :
    (a rin rout fee : ℕ)
    → a < uint256
    → (0 < rin) × (rin < uint256)
    → (0 < rout) × (rout < uint256)
    → fee < 10_000
    → amm_inputs (pos a) (pos rin) (pos rout) (pos fee) ≡ ok tt
unfolding amm_inputs
amm_inputs-ok a rin rout fee ha hin hout hfee = ground arith

buy_input-inverse :
    (q m b fee : ℕ) {a : ℕ}
    → buy_input q m b fee ≡ ok a
    → (a ≡ inverse_amount q m b fee) × (0 < q) × (q < b)
unfolding buy_input inverse_amount required_net
buy_input-inverse q m b fee {a} h = ground arith

-- What the tests of `read_pool` leave
record IsPool (p : Pool) : Type 0 where
  pub musd_bound : (0 < p.reserve_musd) × (p.reserve_musd < uint256)
  pub btc_bound : (0 < p.reserve_btc) × (p.reserve_btc < uint256)
  pub fee_bound : p.fee_bps < 10_000

words-lt :
    (t : Texts) (calls : Calls Json) (address data' : Str) (n : ℕ) {found : List ℕ}
    → words t calls address data' n ≡ ok found
    → All (λ w. w < uint256) found
unfolding words
words-lt t calls address data' n {found} h =
    let (call, e0, h0) =
      >>=-eq-ok (given (result_at (t.lower address) (t.lower data') calls)) _ {last = found} h in
    let (response, e1, h1) = >>=-eq-ok (at (codes "response") call) _ {last = found} h0 in
    let (fields, e2, h2) = >>=-eq-ok (given (as_object response)) _ {last = found} h1 in
    let (u, e3, h3) =
      >>=-eq-ok (require (not (member_of (codes "error") (keys fields)))) _ {last = found} h2 in
    let (v, e4, h4) =
      >>=-eq-ok (require (is_text (codes "2.0") (get (codes "jsonrpc") fields))) _ {last = found}
        h3 in
    let (result, e5, h5) = >>=-eq-ok (given (find (codes "result") fields)) _ {last = found} h4 in
    words_of-lt result n h5

three_words-lt :
    (found : List ℕ) {x y z : ℕ}
    → three_words found ≡ ok (x, y, z)
    → All (λ w. w < uint256) found
    → (x < uint256) × (y < uint256)
three_words-lt (a ∷ b ∷ c ∷ []) {x} {y} h (p, (q, rest)) = (
  subst (λ w. w < uint256) (ap (λ r. r.0) (ok-injective h)) p,
  subst (λ w. w < uint256) (ap (λ r. r.1) (ok-injective h)) q,
)
three_words-lt [] h bounds = cc
three_words-lt (a ∷ []) h bounds = cc
three_words-lt (a ∷ b ∷ []) h bounds = cc
three_words-lt (a ∷ b ∷ c ∷ d ∷ rest) h bounds = cc

three_tests : (a b c : Bool) → require (a && b && c) ≡ ok tt → (a ≡ true) × (b ≡ true)
three_tests true true c h = (refl, refl)
three_tests true false c h = cc
three_tests false b c h = cc

read_pool-IsPool :
    (t : Texts) (calls : Calls Json) (timestamp : ℤ) {p : Pool}
    → read_pool t calls timestamp ≡ ok p
    → IsPool p
unfolding read_pool
read_pool-IsPool t calls timestamp {p} h =
    let (token0, e0, h0) = >>=-eq-ok (word_at t calls pool (codes "0x0dfe1681")) _ {last = p} h in
    let (u0, e1, h1) = >>=-eq-ok (require (token0 == hex_value 0 (drop 2 musd))) _ {last = p} h0 in
    let (token1, e2, h2) = >>=-eq-ok (word_at t calls pool (codes "0xd21220a7")) _ {last = p} h1 in
    let (u1, e3, h3) = >>=-eq-ok (require (token1 == hex_value 0 (drop 2 btc))) _ {last = p} h2 in
    let (stable, e4, h4) = >>=-eq-ok (word_at t calls pool (codes "0x22be3de1")) _ {last = p} h3 in
    let (u2, e5, h5) = >>=-eq-ok (require (stable == 0)) _ {last = p} h4 in
    let (found, read, h6) = >>=-eq-ok (words t calls pool (codes "0x0902f1ac") 3) _ {last = p} h5 in
    let (three, same, h7) = >>=-eq-ok (three_words found) _ {last = p} h6 in
    let (u3, live, h8) =
      >>=-eq-ok (require (ltb 0 three.0 && ltb 0 three.1 && leb_ℤ (pos three.2) timestamp)) _
        {last = p} h7 in
    let (decimals, e6, h9) = >>=-eq-ok (word_at t calls btc (codes "0x313ce567")) _ {last = p} h8 in
    let (u4, e7, h10) = >>=-eq-ok (require (decimals == 18)) _ {last = p} h9 in
    let (fee, e8, h11) =
      >>=-eq-ok (word_at t calls factory (codes "0xcc56b2c5" ++ address_word t pool ++ zeros 64)) _
        {last = p} h10 in
    let (u5, cheap, h12) = >>=-eq-ok (require (ltb fee 10_000)) _ {last = p} h11 in
    let (low_m, low_b) =
      three_tests (ltb 0 three.0) (ltb 0 three.1) (leb_ℤ (pos three.2) timestamp) live in
    let (high_m, high_b) =
      three_words-lt found same (words-lt t calls pool (codes "0x0902f1ac") 3 read) in
    subst IsPool (ok-injective h12) (record {
      musd_bound = ((ltb_iff 0 three.0).0 low_m, high_m);
      btc_bound = ((ltb_iff 0 three.1).0 low_b, high_b);
      fee_bound = (ltb_iff fee 10_000).0 (passed (ltb fee 10_000) value_error cheap);
    })

abbrev token_reserves : Token → Pool → ℕ × ℕ
token_reserves token_in p = reserves token_in p.reserve_musd p.reserve_btc

-- The report's quote of the amount on the reserves of the observation
read_quotes-checked :
    (t : Texts) (calls : Calls Json) (p : Pool) (amount : ℕ) (token_in : Token) {po ro : ℕ}
    → read_quotes t calls p amount token_in ≡ ok (po, ro)
    → let (reserve_in, reserve_out) = token_reserves token_in p in
      (checked_quote amount reserve_in reserve_out p.fee_bps ≡ ok ro) × (po ≡ ro)
unfolding read_quotes
read_quotes-checked t calls p amount token_in {po} {ro} h =
    let (pool_out, e0, h0) =
      >>=-eq-ok
        (word_at t calls pool
          (codes "0xf140a35a" ++ word amount ++ address_word t (address_of token_in)))
        _ {last = (po, ro)} h in
    let (found, e1, h1) =
      >>=-eq-ok (words t calls router (router_calldata t amount token_in) 4) _ {last = (po, ro)}
        h0 in
    let (router_out, e2, h2) = >>=-eq-ok (routed amount found) _ {last = (po, ro)} h1 in
    let (reserve_in, reserve_out) = token_reserves token_in p in
    let (u, checked, made) =
      >>=-eq-ok (check_quotes amount reserve_in reserve_out p.fee_bps pool_out router_out) _
        {last = (po, ro)} h2 in
    let (quote, agree) =
      check_quotes-checked amount reserve_in reserve_out p.fee_bps pool_out router_out checked in
    let same_pool : pool_out ≡ po = ap (λ x. x.0) (ok-injective made) in
    let same_router : router_out ≡ ro = ap (λ x. x.1) (ok-injective made) in
    (quote ∙ ap (λ x. ok x) same_router, sym same_pool ∙ agree ∙ same_router)

pub record IsDecoded (token_in : Token) (r : Decoded) : Type 0 where
  pub musd_bound : (0 < r.reserve_musd) × (r.reserve_musd < uint256)
  pub btc_bound : (0 < r.reserve_btc) × (r.reserve_btc < uint256)
  pub fee_bound : r.fee_bps < 10_000
  pub amount_bound : r.amount_in < uint256
  pub quote :
      let (reserve_in, reserve_out) = reserves token_in r.reserve_musd r.reserve_btc in
      checked_quote r.amount_in reserve_in reserve_out r.fee_bps ≡ ok r.router_amount_out
  pub agree : r.pool_amount_out ≡ r.router_amount_out

admitted-lt : (z : ℤ) {n : ℕ} → admitted z ≡ ok n → n < uint256
admitted-lt (pos m) {n} h = ground arith
admitted-lt (negsuc m) h = cc

pub decode_probe-IsDecoded :
    (t : Texts) (raw : Json) (amount : ℤ) (token_in : Token) {r : Decoded}
    → decode_probe t raw amount token_in ≡ ok r
    → IsDecoded token_in r
unfolding decode_probe
decode_probe-IsDecoded t raw amount token_in {r} h =
    let (probe, e0, h0) = >>=-eq-ok (given (as_object raw)) _ {last = r} h in
    let (header, e1, h1) = >>=-eq-ok (read_header t probe) _ {last = r} h0 in
    let (calls, e2, h2) = >>=-eq-ok (read_calls t header.number probe) _ {last = r} h1 in
    let (p, read, h3) = >>=-eq-ok (read_pool t calls header.timestamp) _ {last = r} h2 in
    let (n, fits, h4) = >>=-eq-ok (admitted amount) _ {last = r} h3 in
    let (out, quoted, made) = >>=-eq-ok (read_quotes t calls p n token_in) _ {last = r} h4 in
    let bounds = read_pool-IsPool t calls header.timestamp read in
    let (quote, agree) = read_quotes-checked t calls p n token_in quoted in
    subst (IsDecoded token_in) (ok-injective made) (record {
      musd_bound = bounds.musd_bound;
      btc_bound = bounds.btc_bound;
      fee_bound = bounds.fee_bound;
      amount_bound = admitted-lt amount fits;
      quote = quote;
      agree = agree;
    })

reserves-bound :
    (token_in : Token) (r : Decoded)
    → IsDecoded token_in r
    → let (reserve_in, reserve_out) = reserves token_in r.reserve_musd r.reserve_btc in
      ((0 < reserve_in) × (reserve_in < uint256)) × ((0 < reserve_out) × (reserve_out < uint256))
reserves-bound btc_token r d = (d.btc_bound, d.musd_bound)
reserves-bound musd_token r d = (d.musd_bound, d.btc_bound)

-- The quote of the report's calculation.
pub amount_out-quoted :
    (token_in : Token) (r : Decoded)
    → IsDecoded token_in r
    → let (reserve_in, reserve_out) = reserves token_in r.reserve_musd r.reserve_btc in
      amm_amount_out (pos r.amount_in) (pos reserve_in) (pos reserve_out) (pos r.fee_bps)
      ≡ ok r.router_amount_out
unfolding amm_amount_out
amount_out-quoted token_in r d =
    let (reserve_in, reserve_out) = reserves token_in r.reserve_musd r.reserve_btc in
    let (in_bound, out_bound) = reserves-bound token_in r d in
    rw
      (amm_inputs-ok r.amount_in reserve_in reserve_out r.fee_bps d.amount_bound in_bound out_bound
        d.fee_bound)
      d.quote

-- What was planned: the quantity that is sold, or what the report's inverse quote asks for it.
abbrev pub Planned : Side → ℕ → Decoded → Type 0
Planned sell quantity r = r.amount_in ≡ quantity
Planned buy quantity r =
    (amm_amount_in (pos quantity) (pos r.reserve_musd) (pos r.reserve_btc) (pos r.fee_bps)
      ≡ ok r.amount_in)
    × (quantity ≤ r.router_amount_out)

pub amount_in-planned :
    (q : ℕ) (r : Decoded)
    → IsDecoded musd_token r
    → q < uint256
    → buy_input q r.reserve_musd r.reserve_btc r.fee_bps ≡ ok r.amount_in
    → amm_amount_in (pos q) (pos r.reserve_musd) (pos r.reserve_btc) (pos r.fee_bps)
      ≡ ok r.amount_in
unfolding amm_amount_in checked_inverse
amount_in-planned q r d small planned =
    let (formula, some_asked, covered) =
      buy_input-inverse q r.reserve_musd r.reserve_btc r.fee_bps planned in
    let uncovered : leb r.reserve_btc q ≡ false = ground arith in
    let asked : (q == 0) ≡ false = ground arith in
    rw
      (
        amm_inputs-ok q r.reserve_musd r.reserve_btc r.fee_bps small d.musd_bound d.btc_bound
            d.fee_bound,
        uncovered,
        asked,
        sym formula,
      )
      (rw (amount_out-quoted musd_token r d) refl)
