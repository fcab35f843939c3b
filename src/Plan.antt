-- ===== src/Plan.antt =====
-- crates/sysknife-brain/src/planner.rs: the plan that the planner returns, and the tests its
-- constructors make.
use lacs.Prelude.{ℕ, String, Bool, true, false, Option, none, some, List, [], str_eq, if◌then◌else◌}
use lacs.Json.{Value}
use lacs.Types.Actions.{ActionName}

pub data PlanRiskLevel : Type 0 where
  low : PlanRiskLevel
  medium : PlanRiskLevel
  high : PlanRiskLevel

pub record PlanStep : Type 0 where
  pub action_name : ActionName
  pub summary : String
  pub risk_level : PlanRiskLevel
  pub params : Value

pub record Plan : Type 0 where
  pub intent : String
  pub summary : String
  pub explanation : String
  pub steps : List PlanStep

pub data Result (A : Type 0) : Type 0 where
  ok : A → Result A
  plan_validation_error : String → Result A

unfoldable pub new_step : ActionName → String → PlanRiskLevel → Value → Result PlanStep
new_step action_name summary risk_level params =
    if str_eq summary ""
    then plan_validation_error "PlanStep summary must not be empty"
    else ok (record {
      action_name = action_name;
      summary = summary;
      risk_level = risk_level;
      params = params;
    })

-- Derived from the risk level.
unfoldable pub approval_required : PlanStep → Bool
approval_required s = elim s.risk_level [ low ↦ false | _ ↦ true ]

abbrev pub is_empty : List PlanStep → Bool
is_empty [] = true
is_empty _ = false

unfoldable pub new : String → String → String → List PlanStep → Result Plan
new intent summary explanation steps =
    if str_eq intent ""
    then plan_validation_error "Plan intent must not be empty"
    else if str_eq summary ""
    then plan_validation_error "Plan summary must not be empty"
    else if str_eq explanation ""
    then plan_validation_error "Plan explanation must not be empty"
    else if is_empty steps
    then plan_validation_error "Plan must have at least one step"
    else ok
        (record { intent = intent; summary = summary; explanation = explanation; steps = steps })

pub data PlanningError : Type 0 where
  empty_intent : PlanningError
  intent_too_long : ℕ → ℕ → PlanningError
  intent_contains_sensitive_data : PlanningError
  rate_limit_exceeded : ℕ → PlanningError
  state_unavailable : String → PlanningError
  planner_stuck : PlanningError
  no_plan_proposed : PlanningError
  provider : String → PlanningError
  invalid_plan_output : String → PlanningError

-- What planning returns, with the operator `?`.
pub data Planned (A : Type 0) : Type 0 where
  done : A → Planned A
  fail : PlanningError → Planned A

infixl 5 ◌>>=◌
abbrev pub ◌>>=◌ : {A B : Type 0} → Planned A → (A → Planned B) → Planned B
done a >>= f = f a
fail e >>= f = fail e

abbrev pub ok_or : {A : Type 0} → Option A → PlanningError → Planned A
ok_or none e = fail e
ok_or (some a) e = done a

-- `From<PlanValidationError> for PlanningError`
unfoldable pub of_validation : {A : Type 0} → Result A → Planned A
of_validation (ok a) = done a
of_validation (plan_validation_error msg) = fail (invalid_plan_output msg)
