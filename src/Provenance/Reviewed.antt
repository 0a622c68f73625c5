-- ===== src/Provenance/Reviewed.antt =====
-- What the constructor of `MarketMappingEvidence` lets through.
use liqvera.Prelude.{
  ℕ, zero, suc, ◌≤◌, ◌<◌, ◌≡◌, true, false, not, ◌&&◌, [], ◌∷◌, all, ltb, Option, none, some, ok,
  >>=-eq-ok, ok-injective, arith, raise_if, passed, not_raised, Bool-cases, inl, inr, subst,
}
use liqvera.Prelude.Int.{ℤ, pos, negsuc}
use liqvera.Python.{value_error, is_sha256}
use liqvera.Decimal.{Decimal, Number, finite, infinity, minus_infinity, nan, lt, le, nought}
use liqvera.Decimal.Order.{lt_of_not_le}
use liqvera.Json.{Json, null, boolean, integer, real, text, array, object}
use liqvera.Provenance.{
  MarketMappingEvidence, MappingFields, mapping_evidence, nonempty_ascii, texts_of,
  require_timestamp, require_until, require_positive_decimal, require_optional_positive_decimal,
  require_optional_nonnegative_int, require_optional_positive_int, require_market_index, is_missing,
}

abbrev pub IsPositive : Decimal → Type 0
IsPositive d = lt nought d ≡ true

-- `P` of what is there.
abbrev pub Given {ℓ} : {A : Type ℓ} → (A → Type 0) → Option A → Type 0
Given P none = Unit
Given P (some a) = P a

pub record IsReviewed (m : MarketMappingEvidence) : Type 0 where
  pub texts :
      all nonempty_ascii (
        m.mapping_id ∷ m.mapping_version ∷ m.venue ∷ m.symbol ∷ m.evidence_reference
        ∷ m.displayed_size_unit ∷ [])
      ≡ true
  pub digest : is_sha256 m.evidence_sha256 ≡ true
  pub interval : Given (λ until. m.valid_from_ms ≤ until) m.valid_until_ms
  pub multiplier : IsPositive m.reviewed_contract_multiplier
  pub step : IsPositive m.quantity_step
  pub notional : IsPositive m.min_notional
  pub tick : Given IsPositive m.price_tick
  pub quantity : Given IsPositive m.min_quantity
  pub digits : Given (λ n. 0 < n) m.max_price_significant_digits
  pub price_rule :
      (is_missing m.price_tick
        && is_missing m.price_decimals
        && is_missing m.max_price_significant_digits)
      ≡ false

positive : (x : Number) {d : Decimal} → require_positive_decimal x ≡ ok d → IsPositive d
unfolding require_positive_decimal
positive infinity h = cc
positive minus_infinity h = cc
positive nan h = cc
positive (finite x) h = elim (Bool-cases (le x nought)) [
  | inl e ↦ let k = rw e at h in cc
  | inr e ↦ let k = ok-injective (rw e at h) in subst IsPositive k (lt_of_not_le nought x e)
]

optional-IsPositive :
    (x : Option Number) {d : Option Decimal}
    → require_optional_positive_decimal x ≡ ok d
    → Given IsPositive d
unfolding require_optional_positive_decimal
optional-IsPositive none h = subst (Given IsPositive) (ok-injective h) tt
optional-IsPositive (some x) h =
    let (d, e, made) = >>=-eq-ok (require_positive_decimal x) (λ c. ok (some c)) h in
    subst (Given IsPositive) (ok-injective made) (positive x e)

until-le :
    (from : ℕ) (z : Option ℤ) {until : Option ℕ}
    → require_until from z ≡ ok until
    → Given (λ n. from ≤ n) until
unfolding require_until
until-le from none {until} h = subst (Given (λ n. from ≤ n)) (ok-injective h) tt
until-le from (some (pos n)) h = elim (Bool-cases (ltb n from)) [
  | inl e ↦ let k = rw e at h in cc
  | inr e ↦ let k = ok-injective (rw e at h) in subst (Given (λ n. from ≤ n)) k (ground arith)
]
until-le from (some (negsuc n)) h = cc

digits_pos :
    (j : Json) {n : Option ℕ} → require_optional_positive_int j ≡ ok n → Given (λ k. 0 < k) n
unfolding require_optional_positive_int
digits_pos null h = subst (Given (λ k. 0 < k)) (ok-injective h) tt
digits_pos (integer (pos (suc n))) h = subst (Given (λ k. 0 < k)) (ok-injective h) (omega arith)
digits_pos (integer (pos zero)) h = cc
digits_pos (integer (negsuc n)) h = cc
digits_pos (boolean b) h = cc
digits_pos (real s) h = cc
digits_pos (text s) h = cc
digits_pos (array xs) h = cc
digits_pos (object ms) h = cc

-- Where the constructor of MarketMappingEvidence returns, the six texts are printable, the hash is
-- 64 lower hexadecimal digits, the validity does not end before it starts, the multiplier, the
-- step, the notional and each optional decimal given are positive, a given count of significant
-- digits is positive, and there is a price rule.
pub mapping_evidence-IsReviewed :
    (f : MappingFields) {m : MarketMappingEvidence} → mapping_evidence f ≡ ok m → IsReviewed m
unfolding mapping_evidence
mapping_evidence-IsReviewed f {m} h =
    let (x0, printable, h0) =
      >>=-eq-ok (raise_if (not (all nonempty_ascii (texts_of f))) value_error) _ {last = m} h in
    let (x1, digest, h1) =
      >>=-eq-ok (raise_if (not (is_sha256 f.evidence_sha256)) value_error) _ {last = m} h0 in
    let (from, e2, h2) = >>=-eq-ok (require_timestamp f.valid_from_ms) _ {last = m} h1 in
    let (until, e3, h3) = >>=-eq-ok (require_until from f.valid_until_ms) _ {last = m} h2 in
    let (multiplier, e4, h4) =
      >>=-eq-ok (require_positive_decimal f.reviewed_contract_multiplier) _ {last = m} h3 in
    let (step, e5, h5) = >>=-eq-ok (require_positive_decimal f.quantity_step) _ {last = m} h4 in
    let (notional, e6, h6) = >>=-eq-ok (require_positive_decimal f.min_notional) _ {last = m} h5 in
    let (tick, e7, h7) =
      >>=-eq-ok (require_optional_positive_decimal f.price_tick) _ {last = m} h6 in
    let (quantity, e8, h8) =
      >>=-eq-ok (require_optional_positive_decimal f.min_quantity) _ {last = m} h7 in
    let (places, e9, h9) =
      >>=-eq-ok (require_optional_nonnegative_int f.price_decimals) _ {last = m} h8 in
    let (digits, e10, h10) =
      >>=-eq-ok (require_optional_positive_int f.max_price_significant_digits) _ {last = m} h9 in
    let (x11, rule, h11) =
      >>=-eq-ok (raise_if (is_missing tick && is_missing places && is_missing digits) value_error) _
        {last = m} h10 in
    let (index, e12, made) =
      >>=-eq-ok (require_market_index f.lighter_market_index) _ {last = m} h11 in
    subst IsReviewed (ok-injective made) (record {
      texts = passed (all nonempty_ascii (texts_of f)) value_error printable;
      digest = passed (is_sha256 f.evidence_sha256) value_error digest;
      interval = until-le from f.valid_until_ms e3;
      multiplier = positive f.reviewed_contract_multiplier e4;
      step = positive f.quantity_step e5;
      notional = positive f.min_notional e6;
      tick = optional-IsPositive f.price_tick e7;
      quantity = optional-IsPositive f.min_quantity e8;
      digits = digits_pos f.max_price_significant_digits e10;
      price_rule =
          not_raised (is_missing tick && is_missing places && is_missing digits) value_error rule;
    })
