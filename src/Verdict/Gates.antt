-- ===== src/Verdict/Gates.antt =====
-- The decision of `evaluate_frozen_package` in packages/readonly-analyzer/src/liqvera_readonly_analyzer/verdict.py.
use liqvera.Prelude.{
  ◌≡◌, ◌≢◌, refl, ap, subst, List, [], ◌∷◌, Option, none, some, Result, ok, ok-injective, arith,
  ◌⊎◌, inl, inr,
}
use liqvera.Python.{Str}
use liqvera.Economics.{SealedStageAEconomics}
use liqvera.Evidence.{CaptureManifest, CaptureTerminal, QualityMinuteRecord}
use liqvera.Decision.{
  DecisionCode, ReasonCode, StageADecision, insufficient_evidence, stop, extend_longer_shadow,
  ordered, reason_class, extend_all_v2_gates_pass,
}
use liqvera.Verdict.{
  insufficiency_reasons, stop_reasons, judge_economics, judge, episodes_of, Error,
}
use liqvera.Verdict.Reasons.{
  AllOf, none_left, next, stage_a_decision-accepts, insufficiency_reasons-AllOf, stop_reasons-AllOf,
  Sufficient, Profitable, Sufficient-nil, nil-Sufficient, Profitable-nil, nil-Profitable,
}

-- Nothing or something.
pub nil-or-cons {ℓ} : {A : Type ℓ} (l : List A) → (l ≡ []) ⊎ ((a : A) × (m : List A) × (l ≡ a ∷ m))
nil-or-cons [] = inl refl
nil-or-cons (a ∷ m) = inr (a, m, refl)

cons-ne-nil {ℓ} : {A : Type ℓ} {a : A} {l m : List A} → l ≡ a ∷ m → l ≢ []
cons-ne-nil h k = cc

abbrev pub document : DecisionCode → List ReasonCode → Option Str → StageADecision
document d reasons run = record { decision = d; reasons = ordered reasons; capture_run_id = run }

module _ (run : Option Str) (m : CaptureManifest) (t : CaptureTerminal)
    (q : List QualityMinuteRecord) where
  judge-short :
      (economics : Option SealedStageAEconomics) {r : ReasonCode} {reasons : List ReasonCode}
      → insufficiency_reasons m t q (episodes_of economics) ≡ r ∷ reasons
      → judge run m t q economics ≡ ok (document insufficient_evidence (r ∷ reasons) run)
  unfolding judge
  judge-short economics h =
      let a = insufficiency_reasons-AllOf m t q (episodes_of economics) in
      rw (judge, h)
        (rw (stage_a_decision-accepts run (subst (AllOf insufficient_evidence) h a)) refl)

  judge-stopped :
      (e : SealedStageAEconomics) {r : ReasonCode} {reasons : List ReasonCode}
      → insufficiency_reasons m t q (episodes_of (some e)) ≡ []
      → stop_reasons e ≡ r ∷ reasons
      → judge run m t q (some e) ≡ ok (document stop (r ∷ reasons) run)
  unfolding judge judge_economics
  judge-stopped e h k =
      let a = stop_reasons-AllOf e in
      rw (judge, h, judge_economics, k)
        (rw (stage_a_decision-accepts run (subst (AllOf stop) k a)) refl)

  judge-extended :
      (e : SealedStageAEconomics)
      → insufficiency_reasons m t q (episodes_of (some e)) ≡ []
      → stop_reasons e ≡ []
      → judge run m t q (some e)
        ≡ ok (document extend_longer_shadow (extend_all_v2_gates_pass ∷ []) run)
  unfolding judge judge_economics reason_class
  judge-extended e h k =
      rw (judge, h, judge_economics, k)
        (rw (stage_a_decision-accepts {d = extend_longer_shadow} run (next refl none_left)) refl)

  judge-without : insufficiency_reasons m t q 0 ≢ []
  judge-without h = let s = nil-Sufficient m t q 0 h in let k = s.enough in omega arith

-- What a package of the three kinds leads to.
pub data Judged (run : Option Str) (m : CaptureManifest) (t : CaptureTerminal)
    (q : List QualityMinuteRecord)
    : Option SealedStageAEconomics → Result Error StageADecision → Type 0 where
  falls_short :
      {economics : Option SealedStageAEconomics} (r : ReasonCode) (reasons : List ReasonCode)
      → AllOf insufficient_evidence (r ∷ reasons)
      → ¬ Sufficient m t q (episodes_of economics)
      → Judged run m t q economics (ok (document insufficient_evidence (r ∷ reasons) run))
  loses :
      {e : SealedStageAEconomics} (r : ReasonCode) (reasons : List ReasonCode)
      → AllOf stop (r ∷ reasons)
      → Sufficient m t q e.independent_episode_count
      → ¬ Profitable e
      → Judged run m t q (some e) (ok (document stop (r ∷ reasons) run))
  passes :
      {e : SealedStageAEconomics}
      → Sufficient m t q e.independent_episode_count
      → Profitable e
      → Judged run m t q
          (some e)
          (ok (document extend_longer_shadow (extend_all_v2_gates_pass ∷ []) run))

-- Documents of two decisions differ.
decision-differs :
    {a b : StageADecision}
    → a.decision ≢ b.decision
    → ¬ (◌≡◌ {A = Result Error StageADecision} (ok a) (ok b))
decision-differs n h = n (ap (λ d. d.decision) (ok-injective h))

module _ (run : Option Str) (m : CaptureManifest) (t : CaptureTerminal)
    (q : List QualityMinuteRecord) where
  short-Judged :
      (economics : Option SealedStageAEconomics) {r : ReasonCode} {reasons : List ReasonCode}
      → insufficiency_reasons m t q (episodes_of economics) ≡ r ∷ reasons
      → Judged run m t q economics (judge run m t q economics)
  short-Judged economics h =
      let a =
        subst (AllOf insufficient_evidence) h
          (insufficiency_reasons-AllOf m t q (episodes_of economics)) in
      rw (judge-short run m t q economics h)
        (falls_short _ _ a (λ s. cons-ne-nil h (Sufficient-nil m t q _ s)))

  long-Judged :
      (e : SealedStageAEconomics)
      → insufficiency_reasons m t q (episodes_of (some e)) ≡ []
      → Judged run m t q (some e) (judge run m t q (some e))
  long-Judged e h =
      let s = nil-Sufficient m t q (episodes_of (some e)) h in
      elim (nil-or-cons (stop_reasons e)) [
        | inr (r, reasons, k) ↦
            let a = subst (AllOf stop) k (stop_reasons-AllOf e) in
            rw (judge-stopped run m t q e h k)
              (loses _ _ a s (λ p. cons-ne-nil k (Profitable-nil e p)))
        | inl k ↦ rw (judge-extended run m t q e h k) (passes s (nil-Profitable e k))
      ]

  -- For every input, judge returns a document and raises nothing. Where the window, the complete
  -- days, the healthy minutes or the episodes fall short the decision is INSUFFICIENT_EVIDENCE;
  -- where they suffice and a gate on the economics fails it is STOP; where all pass it is
  -- EXTEND_LONGER_SHADOW. The reasons belong to the decision's class and there is at least one.
  pub judge-Judged :
      (economics : Option SealedStageAEconomics)
      → Judged run m t q economics (judge run m t q economics)
  judge-Judged none = elim (nil-or-cons (insufficiency_reasons m t q 0)) [
    | inl h ↦ absurd (judge-without run m t q h)
    | inr (r, reasons, h) ↦ short-Judged none h
  ]
  judge-Judged (some e) =
      elim (nil-or-cons (insufficiency_reasons m t q e.independent_episode_count)) [
        | inl h ↦ long-Judged e h
        | inr (r, reasons, h) ↦ short-Judged (some e) h
      ]
