-- ===== src/Examples/Decide.antt =====
-- The decision on a plan.
use lacs.Prelude.{◌≡◌, ◌⊎◌, ◌↔◌, refl, true, false, some, [], ◌∷◌}
use lacs.Json.{null}
use lacs.Plan.{PlanRiskLevel, medium, high, PlanStep, Plan}
use lacs.Approval.{
  ApprovalPolicy, auto_approved, requires_prompt, exceeds_ceiling, max_medium, max_high,
  decide_step, decide_plan,
}
use lacs.Approval.Decisions.{Covered, Decides, auto_approved-iff-Covered, decide_plan-Decides}

abbrev policy : ApprovalPolicy
policy = record { yes = true; max_risk = some max_high; non_interactive = false; dry_run = false }

abbrev step : PlanRiskLevel → PlanStep
step r = record {
  action_name = record { as_str = "GetDiskUsage" };
  summary = "s";
  risk_level = r;
  params = null;
}

abbrev plan : Plan
plan = record {
  intent = "i";
  summary = "s";
  explanation = "e";
  steps = step medium ∷ step high ∷ [];
}

asks_for_high : decide_plan policy plan ≡ requires_prompt
unfolding decide_plan decide_step lacs.Approval.decide_steps lacs.Approval.effective_auto_ceiling
    lacs.Approval.includes
asks_for_high = refl

auto_approved-iff-Covered_example :
    (decide_step policy high ≡ auto_approved)
    ↔ ((false ≡ true) ⊎ ((false ≡ false) × (true ≡ true) × Covered (some max_high) high))
auto_approved-iff-Covered_example = auto_approved-iff-Covered policy high

decide_plan-Decides_example :
    Decides policy (step medium ∷ step high ∷ []) (decide_plan policy plan)
decide_plan-Decides_example = decide_plan-Decides policy plan
