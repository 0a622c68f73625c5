-- ===== src/Tests.antt =====
-- The theorems of the library at concrete inputs; here, the data that the tests share.
mod Money
mod Books
mod Packages
mod Binding
mod Rebuilding
mod Frozen
mod Opening
mod Pairs
mod Troves
mod Entering
mod Fractions
mod Capturing
mod Writing
mod Adapting
mod Quoting
mod Observing
mod Redeeming
mod Costing
use liqvera.Prelude.{
  ℕ, ◌-◌, ◌+◌, ◌*◌, ◌≤◌, ◌<◌, ◌≡◌, ◌↔◌, refl, ap, ◌∙◌, Bool, map, true, false, not, ◌&&◌, List, [],
  ◌∷◌, ◌++◌, Option, none, some, Result, ok, err, leb, ltb, if◌then◌else◌, arith, length, foldl,
}
use liqvera.Prelude.Int.{ℤ, pos, negsuc, ◌≤ℤ◌, ◌<ℤ◌, ◌*ℤ◌, ◌+ℤ◌, pos-*ℤ-pos}
use liqvera.Python.{Str, Unicode, IsUnicode, codes, any, str_eq}
use liqvera.Exact.{ExactDecimal, parse, to_text, mul, add, sub, scale}
use liqvera.Exact.Range.{IsInt64, parse-IsInt64}
use liqvera.Exact.Arithmetic.{mul_floor, sub-add}
use liqvera.Exact.RoundTrip.{parse-to_text}
use liqvera.Decimal.{Decimal, from_decimal}
use liqvera.Decimal.Exact.{from_decimal_exact}
use liqvera.Market.{InstrumentIdentity, BookLevel, OrderBookSnapshot}
use liqvera.Market
use liqvera.Market.Admission.{IsBook, admit_iff}
use liqvera.Provenance.{MarketMappingEvidence, approved}
use liqvera.Reconstruction.Book.{ReconstructedBook, lighter_decoder_id}
use liqvera.Reconstruction.Levels.{apply_side, said, size_at, size_at-apply_side}
use liqvera.Vwap.{buy, sweep_depth, depth_rejected, require_coin_unit_identity}
use liqvera.Vwap.Sweep.{Reads}
use liqvera.Vwap.Fills.{Offer, Rises, depth, paid}
use liqvera.Vwap.Theorems.{
  expected, sweep_depth-fills, sweep_depth-rejects, sweep_depth-optimal, sweep_depth-between,
}
use liqvera.Decision.{
  ReasonCode, stop_median_net_non_positive, stop_total_net_non_positive, ordered,
  extend_longer_shadow, extend_all_v2_gates_pass,
}
use liqvera.Decision.Order.{Rising, mentions, ordered-Rising, mentions-ordered}
use liqvera.Evidence.{CaptureManifest, CaptureTerminal, QualityMinuteRecord}
use liqvera.Economics.{SealedStageAEconomics}
use liqvera.Verdict.{complete_utc_days, strict_healthy_minutes, judge, key_of, same_key}
use liqvera.Verdict.Minutes.{complete_utc_days-length, strict_healthy_minutes-repeat}
use liqvera.Verdict.Gates.{Judged, judge-Judged, document}
use liqvera.Verdict.Reasons.{Sufficient, Profitable}
use liqvera.Amm.{amm_amount_out, amm_amount_in}
use liqvera.Amm.Theorems.{
  amm_amount_out-invariant, amm_amount_in-reaches, amm_amount_in-minimal,
  amm_amount_in-amm_amount_out,
}

-- The ASCII part of Unicode.
abbrev pub ascii_digit : ℕ → Bool
ascii_digit c = leb 48 c && leb c 57

abbrev pub ascii : Unicode
ascii = record {
  is_digit = ascii_digit;
  decimal = λ c. if ascii_digit c then some (c - 48) else none;
  is_space = λ c. leb c 32;
  casefold = λ s. s;
}

pub ascii-IsUnicode : IsUnicode ascii
ascii-IsUnicode = record {
  digit_ascii = λ d h. ground arith;
  decimal_ascii = λ d h. ground arith;
  space_ascii = λ c h k. ground arith;
}

abbrev pub amount : ℤ → ExactDecimal
amount z = record { scaled = z }

pub fits : (n : ℕ) → n < 1_000_000_000_000 → IsInt64 (pos n)
fits n h = record { above = omega arith; below = omega arith }
