-- ===== src/Verdict.antt =====
-- The gates of packages/readonly-analyzer/src/liqvera_readonly_analyzer/verdict.py, and the decision
-- that they lead to once a package has been read and its books rebuilt.
pub mod Minutes
pub mod Reasons
pub mod Gates
use liqvera.Prelude.{
  ℕ, suc, ◌+◌, ◌*◌, ◌/◌, ◌%◌, Bool, true, false, not, ◌&&◌, List, [], ◌∷◌, ◌++◌, Option, none, some,
  Result, ok, err, ◌>>=◌, ltb, leb, ◌==◌, if◌then◌else◌, length,
}
use liqvera.Prelude.Int.{ℤ, pos, sub_ℕ, ltb_ℤ}
use liqvera.Python.{Str, str_eq, any}
use liqvera.Exact.{ExactDecimal, lt, le}
use liqvera.Economics.{SealedStageAEconomics}
use liqvera.Evidence.{CaptureManifest, CaptureTerminal, QualityMinuteRecord}
use liqvera.Decision
use liqvera.Decision.{
  DecisionCode, ReasonCode, StageADecision, stage_a_decision, insufficient_evidence, stop,
  extend_longer_shadow, insufficient_acquisition_window, insufficient_complete_utc_days,
  insufficient_strict_healthy_minutes, insufficient_independent_episodes,
  stop_total_net_non_positive, stop_median_net_non_positive, stop_usd_1000_net_non_positive,
  stop_usd_5000_net_negative, stop_delay_300ms_not_survived, stop_delay_500ms_not_survived,
  stop_fee_case_not_survived, stop_concentration_not_below_25_percent, extend_all_v2_gates_pass,
}

abbrev pub ms_per_minute : ℕ
ms_per_minute = 60_000

abbrev pub ms_per_day : ℕ
ms_per_day = 86_400_000

abbrev pub minutes_per_day : ℕ
minutes_per_day = 1440

-- _REQUIRED_WINDOW_MS and _REQUIRED_WINDOW_MINUTES: seven days
abbrev pub required_window_ms : ℕ
required_window_ms = 604_800_000

abbrev pub required_window_minutes : ℕ
required_window_minutes = 10_080

abbrev pub required_complete_utc_days : ℕ
required_complete_utc_days = 5

abbrev pub required_healthy_ratio : ℕ
required_healthy_ratio = 95

abbrev pub required_independent_episodes : ℕ
required_independent_episodes = 20

-- ExactDecimal(0) and ExactDecimal.parse("0.25")
abbrev pub nil_amount : ExactDecimal
nil_amount = record { scaled = pos 0 }

abbrev pub concentration_limit : ExactDecimal
concentration_limit = record { scaled = pos 25_000_000 }

-- The dictionary of `_complete_utc_days`: each day with the set of its minutes, without repeats.
abbrev pub Covered : Type 0
Covered = List (ℕ × List ℕ)

-- `set.add`
unfoldable pub add_to_set : ℕ → List ℕ → List ℕ
add_to_set m minutes = if any (λ x. m == x) minutes then minutes else m ∷ minutes

-- `covered.setdefault(day, set()).add(minute)`
unfoldable pub cover : ℕ → ℕ → Covered → Covered
unfolding add_to_set
cover day m [] = (day, m ∷ []) ∷ []
cover day m ((d, minutes) ∷ covered) =
    let rest = cover day m covered in
    if day == d then (d, add_to_set m minutes) ∷ covered else (d, minutes) ∷ rest

abbrev pub day_of : QualityMinuteRecord → ℕ
day_of r = r.minute_start_ms / ms_per_day

abbrev pub minute_of_day : QualityMinuteRecord → ℕ
minute_of_day r = r.minute_start_ms / ms_per_minute % minutes_per_day

unfoldable pub cover_all : List QualityMinuteRecord → Covered → Covered
unfolding cover
cover_all [] covered = covered
cover_all (r ∷ minutes) covered = cover_all minutes (cover (day_of r) (minute_of_day r) covered)

unfoldable pub full_days : Covered → ℕ
full_days [] = 0
full_days ((d, minutes) ∷ covered) =
    let rest = full_days covered in if leb minutes_per_day (length minutes) then suc rest else rest

unfoldable pub complete_utc_days : List QualityMinuteRecord → ℕ
unfolding cover_all full_days
complete_utc_days minutes = full_days (cover_all minutes [])

-- The key of `_strict_healthy_minutes`.
abbrev pub Key : Type 0
Key = ℕ × Str

abbrev pub same_key : Key → Key → Bool
same_key a b = a.0 == b.0 && str_eq a.1 b.1

abbrev pub key_of : QualityMinuteRecord → Key
key_of r = (r.minute_start_ms, r.venue)

abbrev pub is_healthy : QualityMinuteRecord → Bool
is_healthy r = ltb 0 r.accepted && r.rejected == 0

-- The loop, with `seen` and `healthy`.
unfoldable pub healthy_from : List Key → ℕ → List QualityMinuteRecord → ℕ
healthy_from seen healthy [] = healthy
healthy_from seen healthy (r ∷ minutes) =
    let skip = healthy_from seen healthy minutes in
    let count =
      healthy_from (key_of r ∷ seen) (if is_healthy r then suc healthy else healthy) minutes in
    if any (same_key (key_of r)) seen then skip else count

unfoldable pub strict_healthy_minutes : List QualityMinuteRecord → ℕ
unfolding healthy_from
strict_healthy_minutes minutes = healthy_from [] 0 minutes

-- `if test: reasons.append(reason)`, in front of what the later tests append
unfoldable pub when : Bool → ReasonCode → List ReasonCode → List ReasonCode
when true r reasons = r ∷ reasons
when false r reasons = reasons

unfoldable pub insufficiency_reasons :
    CaptureManifest → CaptureTerminal → List QualityMinuteRecord → ℕ → List ReasonCode
insufficiency_reasons manifest terminal minutes episodes =
    when (ltb_ℤ (sub_ℕ terminal.terminated_at_ms manifest.started_at_ms) (pos required_window_ms))
      insufficient_acquisition_window
      (when (ltb (complete_utc_days minutes) required_complete_utc_days)
        insufficient_complete_utc_days
        (when
          (ltb (strict_healthy_minutes minutes * 100)
            (required_healthy_ratio * required_window_minutes))
          insufficient_strict_healthy_minutes
          (when (ltb episodes required_independent_episodes) insufficient_independent_episodes [])))

unfoldable pub stop_reasons : SealedStageAEconomics → List ReasonCode
stop_reasons e = when (le e.total_net nil_amount) stop_total_net_non_positive (
    when (le e.median_net nil_amount) stop_median_net_non_positive (
      when (le e.usd_1000_net nil_amount) stop_usd_1000_net_non_positive (
        when (lt e.usd_5000_net nil_amount) stop_usd_5000_net_negative (
          when (not e.survived_delay_300ms) stop_delay_300ms_not_survived (
            when (not e.survived_delay_500ms) stop_delay_500ms_not_survived (
              when (not e.survived_both_fee_cases) stop_fee_case_not_survived (
                when (not (lt e.largest_episode_concentration concentration_limit))
                  stop_concentration_not_below_25_percent [])))))))

-- The ValueError of StageADecision, and the RuntimeError of a missing economics member.
pub data Error : Type 0 where
  decision_error : Decision.Error → Error
  missing_economics : Error

abbrev pub decided : Result Decision.Error StageADecision → Result Error StageADecision
decided (ok d) = ok d
decided (err e) = err (decision_error e)

abbrev pub episodes_of : Option SealedStageAEconomics → ℕ
episodes_of none = 0
episodes_of (some e) = e.independent_episode_count

-- The verdict on the economics, when the evidence suffices.
unfoldable pub judge_economics :
    Option Str → Option SealedStageAEconomics → Result Error StageADecision
judge_economics run none = err missing_economics
judge_economics run (some e) = elim (stop_reasons e) [
  | [] ↦ decided (stage_a_decision extend_longer_shadow (extend_all_v2_gates_pass ∷ []) run)
  | r ∷ reasons ↦ decided (stage_a_decision stop (r ∷ reasons) run)
]

-- The end of `evaluate_frozen_package`, behind the reader and the rebuilt books.
unfoldable pub judge :
    Option Str
    → CaptureManifest
    → CaptureTerminal
    → List QualityMinuteRecord
    → Option SealedStageAEconomics
    → Result Error StageADecision
unfolding judge_economics
judge run manifest terminal minutes economics =
    elim (insufficiency_reasons manifest terminal minutes (episodes_of economics)) [
      | [] ↦ judge_economics run economics
      | r ∷ reasons ↦ decided (stage_a_decision insufficient_evidence (r ∷ reasons) run)
    ]
