-- ===== src/Evaluate/Weighed.antt =====
-- The packages that the verdict weighed.
use liqvera.Prelude.{◌≡◌, ◌≢◌, ap, sym, subst, List, Option, some, Result, ok, err, ok-injective}
use liqvera.Economics.{SealedStageAEconomics}
use liqvera.Decision.{StageADecision, invalid_dataset}
use liqvera.Package.{Platform, Root}
use liqvera.Package.Reader.{Reader}
use liqvera.Reconstruction.Book.{ReconstructedBook}
use liqvera.Evaluate.Sealing.{IsSealed}
use liqvera.Verdict
use liqvera.Verdict.{judge}
use liqvera.Verdict.Gates.{Judged}
use liqvera.Evaluate.{Error, as_judged, Evidence, evaluate_frozen_package}
use liqvera.Evaluate.Decided.{
  Outcome, refused, escapes, weighed, Opened, IsRebuilt, IsBound, evaluate_frozen_package-Outcome,
}

-- A package that the verdict weighed, by what each step before it returned
pub record IsWeighed (p : Platform) (root : Root) (d : StageADecision) : Type 0 where
  pub reader : Reader
  pub evidence : Evidence
  pub opened : Opened p root reader evidence
  pub books : List ReconstructedBook
  pub rebuilt : IsRebuilt p evidence books
  pub bound_books : List ReconstructedBook
  pub bound : IsBound p evidence books bound_books
  pub economics : Option SealedStageAEconomics
  pub seal : IsSealed p reader economics
  pub weight :
      Judged
        (some reader.run_id)
        evidence.manifest
        evidence.terminal
        evidence.minutes
        economics
        (ok d)

as_judged-ok :
    (x : Result Verdict.Error StageADecision) {d : StageADecision} → as_judged x ≡ ok d → x ≡ ok d
as_judged-ok (ok x) h = let k = ok-injective h in ap (λ y. ok y) k
as_judged-ok (err e) h = cc

Outcome-IsWeighed :
    (p : Platform) (root : Root) (x : Result Error StageADecision)
    → Outcome p root x
    → (d : StageADecision) → x ≡ ok d
    → d.decision ≢ invalid_dataset
    → IsWeighed p root d
Outcome-IsWeighed p root x (refused stopped) d h n =
    absurd (n (sym (ap (λ (y : StageADecision). y.decision) (ok-injective h))))
Outcome-IsWeighed p root x (escapes stopped) d h n = cc
Outcome-IsWeighed p root x
      (weighed {x = y} reader evidence economics {books} {bound} opened rebuilt each seal j) d h n =
    record {
      reader = reader;
      evidence = evidence;
      opened = opened;
      books = books;
      rebuilt = rebuilt;
      bound_books = bound;
      bound = each;
      economics = economics;
      seal = seal;
      weight =
          subst
            (Judged (some reader.run_id) evidence.manifest evidence.terminal evidence.minutes
              economics)
            (as_judged-ok y h) j;
    }

pub evaluate_frozen_package-IsWeighed :
    (p : Platform) (root : Root) {d : StageADecision}
    → evaluate_frozen_package p root ≡ ok d
    → d.decision ≢ invalid_dataset
    → IsWeighed p root d
evaluate_frozen_package-IsWeighed p root {d} h n =
    Outcome-IsWeighed p root (evaluate_frozen_package p root)
      (evaluate_frozen_package-Outcome p root) d h n
