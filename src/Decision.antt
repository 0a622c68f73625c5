-- ===== src/Decision.antt =====
-- The Stage A decision document, packages/contracts/src/liqvera_contracts/decision.py.
pub mod Order
use liqvera.Prelude.{
  ℕ, suc, Bool, true, false, not, ◌&&◌, List, [], ◌∷◌, Option, Result, ok, err, ◌>>=◌, ◌>>◌,
  raise_if, ltb, leb, ◌==◌, if◌then◌else◌, all,
}
use liqvera.Python.{is_empty, Str}

pub data DecisionCode : Type 0 where
  invalid_dataset insufficient_evidence stop extend_longer_shadow : DecisionCode

pub data ReasonCode : Type 0 where
  invalid_member_set_mismatch invalid_member_hash_mismatch invalid_manifest invalid_record
        invalid_symlink invalid_unsupported_version invalid_path :
      ReasonCode
  insufficient_acquisition_window insufficient_complete_utc_days insufficient_strict_healthy_minutes
        insufficient_independent_episodes :
      ReasonCode
  stop_total_net_non_positive stop_median_net_non_positive stop_usd_1000_net_non_positive
        stop_usd_5000_net_negative stop_delay_300ms_not_survived stop_delay_500ms_not_survived
        stop_fee_case_not_survived stop_concentration_not_below_25_percent :
      ReasonCode
  extend_all_v2_gates_pass : ReasonCode

-- `_REASON_INDEX`
unfoldable pub reason_index : ReasonCode → ℕ
reason_index invalid_member_set_mismatch = 0
reason_index invalid_member_hash_mismatch = 1
reason_index invalid_manifest = 2
reason_index invalid_record = 3
reason_index invalid_symlink = 4
reason_index invalid_unsupported_version = 5
reason_index invalid_path = 6
reason_index insufficient_acquisition_window = 7
reason_index insufficient_complete_utc_days = 8
reason_index insufficient_strict_healthy_minutes = 9
reason_index insufficient_independent_episodes = 10
reason_index stop_total_net_non_positive = 11
reason_index stop_median_net_non_positive = 12
reason_index stop_usd_1000_net_non_positive = 13
reason_index stop_usd_5000_net_negative = 14
reason_index stop_delay_300ms_not_survived = 15
reason_index stop_delay_500ms_not_survived = 16
reason_index stop_fee_case_not_survived = 17
reason_index stop_concentration_not_below_25_percent = 18
reason_index extend_all_v2_gates_pass = 19

-- `_DECISION_CLASS`: the class of a decision is the decision itself.
-- `_reason_class`: the prefix of the reason's text.
unfoldable pub reason_class : ReasonCode → DecisionCode
reason_class invalid_member_set_mismatch = invalid_dataset
reason_class invalid_member_hash_mismatch = invalid_dataset
reason_class invalid_manifest = invalid_dataset
reason_class invalid_record = invalid_dataset
reason_class invalid_symlink = invalid_dataset
reason_class invalid_unsupported_version = invalid_dataset
reason_class invalid_path = invalid_dataset
reason_class insufficient_acquisition_window = insufficient_evidence
reason_class insufficient_complete_utc_days = insufficient_evidence
reason_class insufficient_strict_healthy_minutes = insufficient_evidence
reason_class insufficient_independent_episodes = insufficient_evidence
reason_class stop_total_net_non_positive = stop
reason_class stop_median_net_non_positive = stop
reason_class stop_usd_1000_net_non_positive = stop
reason_class stop_usd_5000_net_negative = stop
reason_class stop_delay_300ms_not_survived = stop
reason_class stop_delay_500ms_not_survived = stop
reason_class stop_fee_case_not_survived = stop
reason_class stop_concentration_not_below_25_percent = stop
reason_class extend_all_v2_gates_pass = extend_longer_shadow

abbrev pub decision_index : DecisionCode → ℕ
decision_index invalid_dataset = 0
decision_index insufficient_evidence = 1
decision_index stop = 2
decision_index extend_longer_shadow = 3

abbrev pub same_class : DecisionCode → DecisionCode → Bool
same_class a b = decision_index a == decision_index b

-- The ValueErrors, by the branch.
pub data Error : Type 0 where
  no_reasons mixed_classes wrong_class : Error

-- The schemas are constants, and their tests hold for the defaults.
pub record StageADecision : Type 0 where
  pub decision : DecisionCode
  pub reasons : List ReasonCode
  pub capture_run_id : Option Str

-- `sorted(set(reasons), key=_REASON_INDEX)`, by insertion; a reason that is there already is dropped.
unfoldable pub insert_reason : ReasonCode → List ReasonCode → List ReasonCode
insert_reason r [] = r ∷ []
insert_reason r (x ∷ reasons) =
    let rest = insert_reason r reasons in
    if ltb (reason_index r) (reason_index x)
    then r ∷ x ∷ reasons
    else if reason_index r == reason_index x
    then x ∷ reasons
    else x ∷ rest

unfoldable pub ordered : List ReasonCode → List ReasonCode
unfolding insert_reason
ordered [] = []
ordered (r ∷ reasons) = insert_reason r (ordered reasons)

-- `StageADecision(decision, reasons, capture_run_id)`
unfoldable pub stage_a_decision :
    DecisionCode → List ReasonCode → Option Str → Result Error StageADecision
stage_a_decision decision [] run = err no_reasons
stage_a_decision decision (r ∷ reasons) run = do
  raise_if (not (all (λ x. same_class (reason_class x) (reason_class r)) reasons)) mixed_classes
  raise_if (not (same_class (reason_class r) decision)) wrong_class
  ok (record { decision = decision; reasons = ordered (r ∷ reasons); capture_run_id = run })
