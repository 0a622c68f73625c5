-- ===== src/Amm/Trove.antt =====
-- `trove_risk` of packages/evidence-report/src/liqvera_evidence_report/calculation.py. The fractions of the
-- report are kept as numerator and denominator; `_display` renders them.
use liqvera.Prelude.{
  ℕ, zero, suc, ◌+◌, ◌-◌, ◌*◌, ◌/◌, ◌^◌, Bool, true, false, not, ◌&&◌, ◌||◌, List, [], ◌∷◌, ◌++◌,
  Option, none, some, Result, ok, ◌>>◌, raise_if, if◌then◌else◌, ltb, leb, ◌==◌, all, map,
}
use liqvera.Prelude.Int.{ℤ, pos, abs, leb_ℤ, ltb_ℤ, sub_ℕ}
use liqvera.Amm.{uint256}

-- The ValueError, MEZO_TROVE_INVALID_INPUT.
pub data Error : Type 0 where
  trove_invalid_input : Error

pub data Flag : Type 0 where
  not_active liquidatable recovery_mode : Flag

pub data ScenarioStatus : Type 0 where
  is_not_active is_liquidatable above_mcr : ScenarioStatus

-- A fraction that is not reduced
abbrev pub Quotient : Type 0
Quotient = ℤ × ℕ

pub record Scenario : Type 0 where
  pub reduction : ℕ
  pub scenario_price : ℕ
  pub scenario_icr : Option ℕ
  pub status : ScenarioStatus

pub record TroveRisk : Type 0 where
  pub active : Bool
  pub contract_status : ℕ
  pub debt : ℕ
  pub collateral : ℕ
  pub price : ℕ
  pub icr : ℕ
  pub mcr : ℕ
  pub ccr : ℕ
  pub tcr : ℕ
  pub threshold : Option Quotient
  pub buffer : Option Quotient
  pub flags : List Flag
  pub scenarios : List Scenario

-- The arguments
pub record Trove : Type 0 where
  pub collateral : ℤ
  pub principal : ℤ
  pub interest : ℤ
  pub price : ℤ
  pub mcr : ℤ
  pub ccr : ℤ
  pub tcr : ℤ
  pub status : ℤ

abbrev pub trove_unit : ℕ
trove_unit = 10 ^ 18

-- `0 <= v <= maximum`
abbrev pub is_word : ℤ → Bool
is_word v = leb_ℤ (pos 0) v && ltb_ℤ v (pos uint256)

abbrev pub words_of : Trove → List ℤ
words_of v =
    v.collateral ∷ v.principal ∷ v.interest ∷ v.price ∷ v.mcr ∷ v.ccr ∷ v.tcr ∷ v.status ∷ []

-- The first test. Behind the test on the words, `abs` reads a number that is not negative.
unfoldable pub require_trove : Trove → Result Error (Unit {0})
require_trove v =
    raise_if
      (not (all is_word (words_of v))
        || (abs v.price == 0
            || (abs v.mcr == 0
                || (ltb (abs v.ccr) (abs v.mcr)
                    || (leb 5 (abs v.status) || leb uint256 (abs v.principal + abs v.interest))))))
      trove_invalid_input

-- `collateral * price // debt if debt else maximum`
unfoldable pub ratio : ℕ → ℕ → ℕ → ℕ
ratio collateral price zero = uint256 - 1
ratio collateral price (suc debt) = collateral * price / suc debt

-- `condition and [flag]`
abbrev pub flag_if : Bool → Flag → List Flag
flag_if true flag = flag ∷ []
flag_if false flag = []

unfoldable pub flags_of : Bool → ℕ → ℕ → ℕ → ℕ → List Flag
flags_of active icr mcr ccr tcr =
    flag_if (not active) not_active
    ++ (flag_if (active && ltb icr mcr) liquidatable ++ flag_if (ltb tcr ccr) recovery_mode)

-- `Fraction(mcr * debt, collateral * unit) if active and collateral else None`
unfoldable pub threshold_of : Bool → ℕ → ℕ → ℕ → Option Quotient
threshold_of active collateral debt mcr =
    if active && not (collateral == 0)
    then some (pos (mcr * debt), collateral * trove_unit)
    else none

-- `(Fraction(price, unit) / threshold - 1) * 100 if threshold else None`; a zero is no threshold.
unfoldable pub buffer_of : ℕ → Option Quotient → Option Quotient
buffer_of price none = none
buffer_of price (some (n, d)) =
    if abs n == 0
    then none
    else some (sub_ℕ (price * d * 100) (trove_unit * abs n * 100), trove_unit * abs n)

abbrev pub given_if : Bool → ℕ → Option ℕ
given_if true n = some n
given_if false n = none

unfoldable pub scenario_of : Bool → ℕ → ℕ → ℕ → ℕ → ℕ → Scenario
unfolding ratio
scenario_of active collateral price debt mcr reduction =
    let scenario_price = price * (100 - reduction) / 100 in
    let scenario_icr = ratio collateral scenario_price debt in
    record {
      reduction = reduction;
      scenario_price = scenario_price;
      scenario_icr = given_if active scenario_icr;
      status =
          if not active
          then is_not_active
          else if ltb scenario_icr mcr
          then is_liquidatable
          else above_mcr;
    }

-- The report, over the arguments as they passed the first test.
unfoldable pub assess : ℕ → ℕ → ℕ → ℕ → ℕ → ℕ → ℕ → Result Error TroveRisk
assess collateral debt price mcr ccr tcr status = do
  raise_if (status == 1 && debt == 0 || ltb 0 debt && leb uint256 (collateral * price))
      trove_invalid_input
  let icr = ratio collateral price debt
  let active = status == 1
  let threshold = threshold_of active collateral debt mcr
  ok (record {
    active = active;
    contract_status = status;
    debt = debt;
    collateral = collateral;
    price = price;
    icr = icr;
    mcr = mcr;
    ccr = ccr;
    tcr = tcr;
    threshold = threshold;
    buffer = buffer_of price threshold;
    flags = flags_of active icr mcr ccr tcr;
    scenarios = map (scenario_of active collateral price debt mcr) (10 ∷ 20 ∷ 30 ∷ []);
  })

-- `trove_risk`
unfoldable pub trove_risk : Trove → Result Error TroveRisk
trove_risk v = do
  require_trove v
  assess (abs v.collateral) (abs v.principal + abs v.interest) (abs v.price) (abs v.mcr) (abs v.ccr)
      (abs v.tcr) (abs v.status)
