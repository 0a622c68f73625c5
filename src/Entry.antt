-- ===== src/Entry.antt =====
-- The command, packages/readonly-analyzer/src/liqvera_readonly_analyzer/__main__.py and config.py: the
-- environment, the package's root, and the exit code. `Shell` is what it takes from Python.
pub mod Exit
use liqvera.Prelude.{
  ℕ, Bool, true, false, not, ◌&&◌, ◌||◌, List, [], ◌∷◌, Option, none, some, Result, ok, err, ◌>>=◌,
  ◌>>◌, raise_if, if◌then◌else◌,
}
use liqvera.Python.{Str, codes, is_empty, any, str_eq, starts_with}
use liqvera.Decision.{DecisionCode, invalid_dataset, StageADecision, same_class}
use liqvera.Package.{Platform, Root}
use liqvera.Evaluate.{evaluate_frozen_package}

-- `str.upper`, and what stands at a path: `locate` follows links, and finds directories only.
pub record Shell : Type 0 where
  pub upper : Str → Str
  pub is_absolute : Str → Bool
  pub locate : Str → Option Root

abbrev pub Environment : Type 0
Environment = List (Str × Str)

-- AnalyzerConfigError, by its message
pub data ConfigError : Type 0 where
  credential_environment package_required invalid_path : ConfigError

-- `_FORBIDDEN_ENV_MARKERS`
abbrev pub forbidden_env_markers : List Str
forbidden_env_markers =
    codes "SECRET"
    ∷ codes "TOKEN"
    ∷ codes "PASSWORD"
    ∷ codes "PRIVATE"
    ∷ codes "WALLET"
    ∷ codes "SIGNER"
    ∷ codes "API_KEY"
    ∷ codes "APIKEY"
    ∷ []

-- `marker in text`
unfoldable pub contains : Str → Str → Bool
contains marker [] = is_empty marker
contains marker (c ∷ s) = starts_with marker (c ∷ s) || contains marker s

abbrev pub is_forbidden : Shell → Str → Bool
is_forbidden sh key = any (λ marker. contains marker (sh.upper key)) forbidden_env_markers

-- `env.get(key)`
unfoldable pub lookup : Str → Environment → Option Str
lookup key [] = none
lookup key ((k, v) ∷ env) = let later = lookup key env in if str_eq k key then some v else later

-- `not raw`
abbrev pub require_value : Option Str → Result ConfigError Str
require_value none = err package_required
require_value (some []) = err package_required
require_value (some (c ∷ s)) = ok (c ∷ s)

abbrev pub require_directory : Option Root → Result ConfigError Root
require_directory none = err invalid_path
require_directory (some root) = ok root

-- `load_analyzer_configuration`
unfoldable pub load_analyzer_configuration : Shell → Environment → Result ConfigError Root
load_analyzer_configuration sh env = do
  raise_if (any (λ (entry : Str × Str). is_forbidden sh entry.0) env) credential_environment
  raw ← require_value (lookup (codes "LIQVERA_FROZEN_PACKAGE") env)
  raise_if (not (sh.is_absolute raw)) invalid_path
  require_directory (sh.locate raw)

-- The exit code, and the decision that is written to the output.
abbrev pub Finished : Type 0
Finished = ℕ × Option StageADecision

unfoldable pub finish : {E : Type 0} → Result E StageADecision → Finished
finish (err e) = (1, none)
finish (ok d) = (if same_class d.decision invalid_dataset then 1 else 0, some d)

unfoldable pub start : Platform → Result ConfigError Root → Finished
unfolding finish
start p (err e) = (2, none)
start p (ok root) = finish (evaluate_frozen_package p root)

-- `main`
unfoldable pub main : Platform → Shell → Environment → Finished
main p sh env = start p (load_analyzer_configuration sh env)
