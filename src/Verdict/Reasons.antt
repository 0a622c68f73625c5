-- ===== src/Verdict/Reasons.antt =====
-- The reasons that the gates of verdict.py collect, and the documents that hold them.
use liqvera.Prelude.{
  ℕ, ◌≤◌, ◌+◌, ◌*◌, ◌≡◌, ◌↔◌, refl, Bool, true, false, List, [], ◌∷◌, Option, ok, all, arith,
}
use liqvera.Prelude.Int.{pos, ◌≤ℤ◌, ◌<ℤ◌}
use liqvera.Python.{Str}
use liqvera.Economics.{SealedStageAEconomics}
use liqvera.Evidence.{CaptureManifest, CaptureTerminal, QualityMinuteRecord}
use liqvera.Decision.{
  DecisionCode, ReasonCode, stage_a_decision, insufficient_evidence, stop, ordered, reason_class,
  same_class,
}
use liqvera.Verdict.{
  when, insufficiency_reasons, stop_reasons, complete_utc_days, strict_healthy_minutes,
  required_window_ms, required_window_minutes, required_complete_utc_days,
  required_independent_episodes, required_healthy_ratio,
}

-- Every reason belongs to the class of the decision.
pub data AllOf (d : DecisionCode) : List ReasonCode → Type 0 where
  none_left : AllOf d []
  next :
      {r : ReasonCode} {reasons : List ReasonCode}
      → reason_class r ≡ d
      → AllOf d reasons
      → AllOf d (r ∷ reasons)

when-AllOf :
    {d : DecisionCode} (b : Bool) (r : ReasonCode) {reasons : List ReasonCode}
    → reason_class r ≡ d
    → AllOf d reasons
    → AllOf d (when b r reasons)
unfolding when
when-AllOf true r e h = next e h
when-AllOf false r e h = h

pub insufficiency_reasons-AllOf :
    (m : CaptureManifest) (t : CaptureTerminal) (q : List QualityMinuteRecord) (n : ℕ)
    → AllOf insufficient_evidence (insufficiency_reasons m t q n)
unfolding insufficiency_reasons reason_class
insufficiency_reasons-AllOf m t q n =
    when-AllOf _ _ refl (when-AllOf _ _ refl (when-AllOf _ _ refl (when-AllOf _ _ refl none_left)))

pub stop_reasons-AllOf : (e : SealedStageAEconomics) → AllOf stop (stop_reasons e)
unfolding stop_reasons reason_class
stop_reasons-AllOf e = when-AllOf _ _ refl (
    when-AllOf _ _ refl (
      when-AllOf _ _ refl (
        when-AllOf _ _ refl (
          when-AllOf _ _ refl
            (when-AllOf _ _ refl (when-AllOf _ _ refl (when-AllOf _ _ refl none_left)))))))

same_class_refl : (d : DecisionCode) → same_class d d ≡ true
same_class_refl d = ground arith

all-same :
    {d : DecisionCode} (r : ReasonCode) {reasons : List ReasonCode}
    → reason_class r ≡ d
    → AllOf d reasons
    → all (λ x. same_class (reason_class x) (reason_class r)) reasons ≡ true
all-same r e none_left = refl
all-same {d} r e (next k ks) = rw (all-same r e ks, k, e, same_class_refl d)

-- Reasons of the decision's own class are accepted.
pub stage_a_decision-accepts :
    {d : DecisionCode} {r : ReasonCode} {reasons : List ReasonCode} (run : Option Str)
    → AllOf d (r ∷ reasons)
    → stage_a_decision d (r ∷ reasons) run
      ≡ ok (record { decision = d; reasons = ordered (r ∷ reasons); capture_run_id = run })
unfolding stage_a_decision
stage_a_decision-accepts {d} {r} run (next e h) = rw (all-same r e h, e, same_class_refl d) refl

-- The tests of `_insufficiency_reasons` that must fail.
pub record Sufficient (m : CaptureManifest) (t : CaptureTerminal) (q : List QualityMinuteRecord)
    (episodes : ℕ) : Type 0 where
  pub window : m.started_at_ms + required_window_ms ≤ t.terminated_at_ms
  pub days : required_complete_utc_days ≤ complete_utc_days q
  pub healthy : required_healthy_ratio * required_window_minutes ≤ strict_healthy_minutes q * 100
  pub enough : required_independent_episodes ≤ episodes

-- The tests of `_stop_reasons` that must fail.
pub record Profitable (e : SealedStageAEconomics) : Type 0 where
  pub total : pos 0 <ℤ e.total_net.scaled
  pub median : pos 0 <ℤ e.median_net.scaled
  pub at_1000 : pos 0 <ℤ e.usd_1000_net.scaled
  pub at_5000 : pos 0 ≤ℤ e.usd_5000_net.scaled
  pub delay_300 : e.survived_delay_300ms ≡ true
  pub delay_500 : e.survived_delay_500ms ≡ true
  pub both_fees : e.survived_both_fee_cases ≡ true
  pub spread_out : e.largest_episode_concentration.scaled <ℤ pos 25_000_000

when-nil :
    (b : Bool) (r : ReasonCode) {reasons : List ReasonCode}
    → (when b r reasons ≡ []) ↔ ((b ≡ false) × (reasons ≡ []))
unfolding when
when-nil true r = ground arith
when-nil false r = ground arith

when-nil-only :
    {b : Bool} (r : ReasonCode) {reasons : List ReasonCode}
    → when b r reasons ≡ []
    → (b ≡ false) × (reasons ≡ [])
when-nil-only {b} r h = (when-nil b r).0 h

when-skipped :
    {b : Bool} (r : ReasonCode) {reasons : List ReasonCode}
    → b ≡ false
    → reasons ≡ []
    → when b r reasons ≡ []
unfolding when
when-skipped r e f = rw (e, f) refl

module _ (m : CaptureManifest) (t : CaptureTerminal) (q : List QualityMinuteRecord) (n : ℕ) where
  pub Sufficient-nil : Sufficient m t q n → insufficiency_reasons m t q n ≡ []
  unfolding insufficiency_reasons
  Sufficient-nil s =
      let a = s.window in
      let b = s.days in
      let c = s.healthy in
      let d = s.enough in
      when-skipped _ (ground arith) (
        when-skipped _ (ground arith)
          (when-skipped _ (ground arith) (when-skipped _ (ground arith) refl)))

  pub nil-Sufficient : insufficiency_reasons m t q n ≡ [] → Sufficient m t q n
  unfolding insufficiency_reasons
  nil-Sufficient h =
      let h1 = when-nil-only _ h in
      let h2 = when-nil-only _ h1.1 in
      let h3 = when-nil-only _ h2.1 in
      let h4 = when-nil-only _ h3.1 in
      let a = h1.0 in
      let b = h2.0 in
      let c = h3.0 in
      let d = h4.0 in
      record {
        window = ground arith;
        days = ground arith;
        healthy = ground arith;
        enough = ground arith;
      }

module _ (e : SealedStageAEconomics) where
  pub Profitable-nil : Profitable e → stop_reasons e ≡ []
  unfolding stop_reasons
  Profitable-nil p =
      let a = p.total in
      let b = p.median in
      let c = p.at_1000 in
      let d = p.at_5000 in
      let s = p.spread_out in
      when-skipped _ (ground arith) (
        when-skipped _ (ground arith) (
          when-skipped _ (ground arith) (
            when-skipped _ (ground arith) (
              when-skipped _ (rw p.delay_300 refl) (
                when-skipped _ (rw p.delay_500 refl)
                  (when-skipped _ (rw p.both_fees refl) (when-skipped _ (ground arith) refl)))))))

  pub nil-Profitable : stop_reasons e ≡ [] → Profitable e
  unfolding stop_reasons
  nil-Profitable h =
      let h1 = when-nil-only _ h in
      let h2 = when-nil-only _ h1.1 in
      let h3 = when-nil-only _ h2.1 in
      let h4 = when-nil-only _ h3.1 in
      let h5 = when-nil-only _ h4.1 in
      let h6 = when-nil-only _ h5.1 in
      let h7 = when-nil-only _ h6.1 in
      let h8 = when-nil-only _ h7.1 in
      let a = h1.0 in
      let b = h2.0 in
      let c = h3.0 in
      let d = h4.0 in
      let f = h5.0 in
      let g = h6.0 in
      let i = h7.0 in
      let j = h8.0 in
      record {
        total = ground arith;
        median = ground arith;
        at_1000 = ground arith;
        at_5000 = ground arith;
        delay_300 = ground arith;
        delay_500 = ground arith;
        both_fees = ground arith;
        spread_out = ground arith;
      }
