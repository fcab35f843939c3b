-- ===== src/Approval.antt =====
-- apps/sysknife-cli/src/approval.rs: whether a step of a plan may run without a human. The theorems
-- are in `Approval/Decisions`.
pub mod Decisions
use lacs.Prelude.{Bool, true, false, not, Option, none, some, List, [], ◌∷◌, if◌then◌else◌}
use lacs.Plan.{PlanRiskLevel, low, medium, high, PlanStep, Plan}

pub data MaxRisk : Type 0 where
  max_low : MaxRisk
  max_medium : MaxRisk
  max_high : MaxRisk

-- The order that `MaxRisk` derives.
abbrev pub min : MaxRisk → MaxRisk → MaxRisk
min max_low _ = max_low
min max_medium max_low = max_low
min max_medium _ = max_medium
min max_high r = r

abbrev pub hardcoded_max_auto_approve : MaxRisk
hardcoded_max_auto_approve = max_medium

unfoldable pub includes : MaxRisk → PlanRiskLevel → Bool
includes max_low low = true
includes max_low _ = false
includes max_medium high = false
includes max_medium _ = true
includes max_high _ = true

pub record ApprovalPolicy : Type 0 where
  pub yes : Bool
  pub max_risk : Option MaxRisk
  pub non_interactive : Bool
  pub dry_run : Bool

pub data ApprovalDecision : Type 0 where
  auto_approved : ApprovalDecision
  requires_prompt : ApprovalDecision
  requires_interaction : ApprovalDecision
  exceeds_ceiling : ApprovalDecision

abbrev pub unwrap_or : Option MaxRisk → MaxRisk → MaxRisk
unwrap_or none r = r
unwrap_or (some r) _ = r

unfoldable pub effective_auto_ceiling : ApprovalPolicy → Option MaxRisk
effective_auto_ceiling p =
    if not p.yes then none else some (min (unwrap_or p.max_risk max_low) hardcoded_max_auto_approve)

-- `if let Some(ceiling) = …` with its test
abbrev pub above : Option MaxRisk → PlanRiskLevel → Bool
unfolding includes
above none risk = false
above (some ceiling) risk = not (includes ceiling risk)

abbrev pub within : Option MaxRisk → PlanRiskLevel → Bool
unfolding includes
within none risk = false
within (some ceiling) risk = includes ceiling risk

unfoldable pub decide_step : ApprovalPolicy → PlanRiskLevel → ApprovalDecision
decide_step p risk =
    if p.dry_run
    then auto_approved
    else if above p.max_risk risk
    then exceeds_ceiling
    else if within (effective_auto_ceiling p) risk
    then auto_approved
    else if p.non_interactive
    then requires_interaction
    else requires_prompt

-- The loop of `decide_plan`, with `worst`.
unfoldable pub decide_steps : ApprovalPolicy → ApprovalDecision → List PlanStep → ApprovalDecision
decide_steps p worst [] = worst
decide_steps p worst (s ∷ steps) = elim (decide_step p s.risk_level) [
  | exceeds_ceiling ↦ exceeds_ceiling
  | requires_interaction ↦ requires_interaction
  | requires_prompt ↦ decide_steps p requires_prompt steps
  | auto_approved ↦ decide_steps p worst steps
]

unfoldable pub decide_plan : ApprovalPolicy → Plan → ApprovalDecision
decide_plan p plan = decide_steps p auto_approved plan.steps
