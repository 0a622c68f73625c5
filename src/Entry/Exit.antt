-- ===== src/Entry/Exit.antt =====
-- What an exit code of zero tells.
use liqvera.Prelude.{
  ◌≡◌, ◌≢◌, refl, ap, false, some, Result, ok, err, >>=-eq-ok, not_raised, raise_if, Bool-cases,
  inl, inr, arith,
}
use liqvera.Python.{Str, any}
use liqvera.Decision.{DecisionCode, invalid_dataset, StageADecision, same_class}
use liqvera.Package.{Platform, Root}
use liqvera.Evaluate.{evaluate_frozen_package}
use liqvera.Evaluate.Weighed.{IsWeighed, evaluate_frozen_package-IsWeighed}
use liqvera.Entry.{
  Shell, Environment, ConfigError, credential_environment, is_forbidden,
  load_analyzer_configuration, finish, start, main,
}

-- A run that ended well.
pub record IsFinished (p : Platform) (sh : Shell) (env : Environment) : Type 0 where
  pub clean : any (λ (entry : Str × Str). is_forbidden sh entry.0) env ≡ false
  pub root : Root
  pub loaded : load_analyzer_configuration sh env ≡ ok root
  pub decision : StageADecision
  pub written : (main p sh env).1 ≡ some decision
  pub weighed : IsWeighed p root decision

invalid-same_class : (d : DecisionCode) → same_class d invalid_dataset ≡ false → d ≢ invalid_dataset
invalid-same_class d h k = let e = ap (λ c. same_class c invalid_dataset) k in cc

load-clean :
    (sh : Shell) (env : Environment) {root : Root}
    → load_analyzer_configuration sh env ≡ ok root
    → any (λ (entry : Str × Str). is_forbidden sh entry.0) env ≡ false
unfolding load_analyzer_configuration
load-clean sh env {root} h =
    let test = any (λ (entry : Str × Str). is_forbidden sh entry.0) env in
    let (u, tested, rest) = >>=-eq-ok (raise_if test credential_environment) _ {last = root} h in
    not_raised test credential_environment tested

finish-zero :
    {E : Type 0} (r : Result E StageADecision)
    → (finish r).0 ≡ 0
    → (d : StageADecision) × (r ≡ ok d) × ((finish r).1 ≡ some d) × (d.decision ≢ invalid_dataset)
unfolding finish
finish-zero (err e) h = absurd (omega (arith, h))
finish-zero (ok d) h = elim (Bool-cases (same_class d.decision invalid_dataset)) [
  | inl e ↦ let k = rw e at h in absurd (omega (arith, k))
  | inr e ↦ (d, refl, refl, invalid-same_class d.decision e)
]

start-zero :
    (p : Platform) (r : Result ConfigError Root)
    → (start p r).0 ≡ 0
    → (root : Root) × (r ≡ ok root) × ((finish (evaluate_frozen_package p root)).0 ≡ 0)
unfolding start
start-zero p (err e) h = absurd (omega (arith, h))
start-zero p (ok root) h = (root, refl, h)

-- Where main returns zero, no name in the environment holds a credential's marker, the
-- configuration gave a root, a decision was written, and the package at the root was weighed: it
-- was opened and its evidence read, its books were rebuilt from the envelopes and bound to the
-- mappings that were read, and the decision is the verdict's on what was read.
pub main-IsFinished :
    (p : Platform) (sh : Shell) (env : Environment) → (main p sh env).0 ≡ 0 → IsFinished p sh env
unfolding main start
main-IsFinished p sh env h =
    let (root, loaded, zero_code) = start-zero p (load_analyzer_configuration sh env) h in
    let (d, evaluated, shown, valid) = finish-zero (evaluate_frozen_package p root) zero_code in
    record {
      clean = load-clean sh env loaded;
      root = root;
      loaded = loaded;
      decision = d;
      written = rw loaded shown;
      weighed = evaluate_frozen_package-IsWeighed p root evaluated valid;
    }
