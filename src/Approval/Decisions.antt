-- ===== src/Approval/Decisions.antt =====
-- What a decision of apps/sysknife-cli/src/approval.rs means.
use lacs.Prelude.{
  ◌≡◌, ◌↔◌, ◌⊎◌, inl, inr, refl, Bool, true, false, Option, none, some, List, [], ◌∷◌, All, arith,
  ℕ, ◌≤◌,
}
use lacs.Plan.{PlanRiskLevel, low, medium, high, PlanStep, Plan}
use lacs.Approval.{
  MaxRisk, max_low, max_medium, max_high, ApprovalPolicy, ApprovalDecision, auto_approved,
  requires_prompt, requires_interaction, exceeds_ceiling, includes, effective_auto_ceiling,
  decide_step, decide_steps, decide_plan,
}

abbrev level : PlanRiskLevel → ℕ
level low = 0
level medium = 1
level high = 2

abbrev max_level : MaxRisk → ℕ
max_level max_low = 0
max_level max_medium = 1
max_level max_high = 2

-- A step that `--yes` covers: a low one, or a medium one when `--max-risk` names medium or high. A
-- high one never is.
pub data Covered : Option MaxRisk → PlanRiskLevel → Type 0 where
  low_step : (m : Option MaxRisk) → Covered m low
  medium_step : (m : MaxRisk) → 1 ≤ max_level m → Covered (some m) medium

Covered-of_auto :
    (given non_interactive dry_run : Bool) (m : Option MaxRisk) (r : PlanRiskLevel)
    → decide_step
        (record { yes = given; max_risk = m; non_interactive = non_interactive; dry_run = dry_run })
        r
      ≡ auto_approved
    → (dry_run ≡ true) ⊎ ((dry_run ≡ false) × (given ≡ true) × Covered m r)
unfolding decide_step effective_auto_ceiling includes
Covered-of_auto y n true m r h = inl refl
Covered-of_auto true n false m low h = inr (refl, refl, low_step m)
Covered-of_auto true n false none medium h = absurd (ground arith)
Covered-of_auto true n false (some max_low) medium h = absurd (ground arith)
Covered-of_auto true n false (some max_medium) medium h =
    inr (refl, refl, medium_step max_medium (omega arith))
Covered-of_auto true n false (some max_high) medium h =
    inr (refl, refl, medium_step max_high (omega arith))
Covered-of_auto true n false none high h = absurd (ground arith)
Covered-of_auto true n false (some max_low) high h = absurd (ground arith)
Covered-of_auto true n false (some max_medium) high h = absurd (ground arith)
Covered-of_auto true n false (some max_high) high h = absurd (ground arith)
Covered-of_auto false n false none r h = absurd (ground arith)
Covered-of_auto false n false (some m) r h = absurd (ground arith)

auto_of_Covered :
    (non_interactive : Bool) (m : Option MaxRisk) (r : PlanRiskLevel)
    → Covered m r
    → decide_step
        (record { yes = true; max_risk = m; non_interactive = non_interactive; dry_run = false })
        r
      ≡ auto_approved
unfolding decide_step effective_auto_ceiling includes
auto_of_Covered n none low c = refl
auto_of_Covered n (some max_low) low c = refl
auto_of_Covered n (some max_medium) low c = refl
auto_of_Covered n (some max_high) low c = refl
auto_of_Covered n (some max_low) medium (medium_step _ h) = absurd (omega arith)
auto_of_Covered n (some max_medium) medium c = refl
auto_of_Covered n (some max_high) medium c = refl
auto_of_Covered n none medium c = elim c [ ]
auto_of_Covered n none high c = elim c [ ]
auto_of_Covered n (some max_low) high c = elim c [ ]
auto_of_Covered n (some max_medium) high c = elim c [ ]
auto_of_Covered n (some max_high) high c = elim c [ ]

-- A step runs without a human exactly when the run is dry, or `--yes` is given and covers its risk:
-- low, or medium under a `--max-risk` of medium or more.
pub auto_approved-iff-Covered :
    (p : ApprovalPolicy) (r : PlanRiskLevel)
    → (decide_step p r ≡ auto_approved)
      ↔ ((p.dry_run ≡ true) ⊎ ((p.dry_run ≡ false) × (p.yes ≡ true) × Covered p.max_risk r))
unfolding decide_step
auto_approved-iff-Covered p r = (
  λ h. Covered-of_auto p.yes p.non_interactive p.dry_run p.max_risk r h,
  λ c. elim c [
    | inl dry ↦ rw dry
    | inr (dry, given, covered) ↦
        rw (dry, given) (auto_of_Covered p.non_interactive p.max_risk r covered)
  ],
)

abbrev IsDecided : ApprovalPolicy → ApprovalDecision → PlanStep → Type 0
IsDecided p d s = decide_step p s.risk_level ≡ d

abbrev GoesOn : ApprovalPolicy → PlanStep → Type 0
GoesOn p s = IsDecided p auto_approved s ⊎ IsDecided p requires_prompt s

-- The first step that neither runs by itself nor asks gets the decision `d`.
pub data StopsAt (p : ApprovalPolicy) (d : ApprovalDecision) : List PlanStep → Type 0 where
  here : (s : PlanStep) (steps : List PlanStep) → IsDecided p d s → StopsAt p d (s ∷ steps)
  there :
      (s : PlanStep) (steps : List PlanStep)
      → GoesOn p s
      → StopsAt p d steps
      → StopsAt p d (s ∷ steps)

-- Some step asks.
pub data Asks (p : ApprovalPolicy) : List PlanStep → Type 0 where
  asks : (s : PlanStep) (steps : List PlanStep) → IsDecided p requires_prompt s → Asks p (s ∷ steps)
  asks_later : (s : PlanStep) (steps : List PlanStep) → Asks p steps → Asks p (s ∷ steps)

-- What the decision `d` on the steps says of them.
pub data Decides (p : ApprovalPolicy) (steps : List PlanStep) : ApprovalDecision → Type 0 where
  all_auto : All (IsDecided p auto_approved) steps → Decides p steps auto_approved
  one_asks : All (GoesOn p) steps → Asks p steps → Decides p steps requires_prompt
  interaction : StopsAt p requires_interaction steps → Decides p steps requires_interaction
  exceeds : StopsAt p exceeds_ceiling steps → Decides p steps exceeds_ceiling

-- the loop once a step has asked
data DecidesAfter (p : ApprovalPolicy) (steps : List PlanStep) : ApprovalDecision → Type 0 where
  goes_on : All (GoesOn p) steps → DecidesAfter p steps requires_prompt
  stops_interaction :
      StopsAt p requires_interaction steps → DecidesAfter p steps requires_interaction
  stops_exceeds : StopsAt p exceeds_ceiling steps → DecidesAfter p steps exceeds_ceiling

after-there :
    (p : ApprovalPolicy) (s : PlanStep) (steps : List PlanStep) (d : ApprovalDecision)
    → GoesOn p s
    → DecidesAfter p steps d
    → DecidesAfter p (s ∷ steps) d
after-there p s steps _ g (goes_on all) = goes_on (g, all)
after-there p s steps _ g (stops_interaction x) = stops_interaction (there s steps g x)
after-there p s steps _ g (stops_exceeds x) = stops_exceeds (there s steps g x)

Decides-auto :
    (p : ApprovalPolicy) (s : PlanStep) (steps : List PlanStep) (d : ApprovalDecision)
    → IsDecided p auto_approved s
    → Decides p steps d
    → Decides p (s ∷ steps) d
Decides-auto p s steps _ h (all_auto all) = all_auto (h, all)
Decides-auto p s steps _ h (one_asks all a) = one_asks (inl h, all) (asks_later s steps a)
Decides-auto p s steps _ h (interaction x) = interaction (there s steps (inl h) x)
Decides-auto p s steps _ h (exceeds x) = exceeds (there s steps (inl h) x)

Decides-prompt :
    (p : ApprovalPolicy) (s : PlanStep) (steps : List PlanStep) (d : ApprovalDecision)
    → IsDecided p requires_prompt s
    → DecidesAfter p steps d
    → Decides p (s ∷ steps) d
Decides-prompt p s steps _ h (goes_on all) = one_asks (inr h, all) (asks s steps h)
Decides-prompt p s steps _ h (stops_interaction x) = interaction (there s steps (inr h) x)
Decides-prompt p s steps _ h (stops_exceeds x) = exceeds (there s steps (inr h) x)

decision-cases :
    (d : ApprovalDecision)
    → ((d ≡ auto_approved) ⊎ (d ≡ requires_prompt))
      ⊎ ((d ≡ requires_interaction) ⊎ (d ≡ exceeds_ceiling))
decision-cases auto_approved = inl (inl refl)
decision-cases requires_prompt = inl (inr refl)
decision-cases requires_interaction = inr (inl refl)
decision-cases exceeds_ceiling = inr (inr refl)

decide_steps_prompt :
    (p : ApprovalPolicy) (steps : List PlanStep)
    → DecidesAfter p steps (decide_steps p requires_prompt steps)
unfolding decide_steps
decide_steps_prompt p [] = goes_on tt
decide_steps_prompt p (s ∷ steps) = elim (decision-cases (decide_step p s.risk_level)) [
  | inl (inl e) ↦
      rw (e, decide_steps) (after-there p s steps _ (inl e) (decide_steps_prompt p steps))
  | inl (inr e) ↦
      rw (e, decide_steps) (after-there p s steps _ (inr e) (decide_steps_prompt p steps))
  | inr (inl e) ↦ rw (e, decide_steps) (stops_interaction (here s steps e))
  | inr (inr e) ↦ rw (e, decide_steps) (stops_exceeds (here s steps e))
]

decide_steps_auto :
    (p : ApprovalPolicy) (steps : List PlanStep)
    → Decides p steps (decide_steps p auto_approved steps)
unfolding decide_steps
decide_steps_auto p [] = all_auto tt
decide_steps_auto p (s ∷ steps) = elim (decision-cases (decide_step p s.risk_level)) [
  | inl (inl e) ↦ rw (e, decide_steps) (Decides-auto p s steps _ e (decide_steps_auto p steps))
  | inl (inr e) ↦ rw (e, decide_steps) (Decides-prompt p s steps _ e (decide_steps_prompt p steps))
  | inr (inl e) ↦ rw (e, decide_steps) (interaction (here s steps e))
  | inr (inr e) ↦ rw (e, decide_steps) (exceeds (here s steps e))
]

-- The decision on a plan says of its steps what it promises: all run without a human, or all run or
-- ask and one asks, or the first step that does neither has that decision.
pub decide_plan-Decides :
    (p : ApprovalPolicy) (plan : Plan) → Decides p plan.steps (decide_plan p plan)
unfolding decide_plan
decide_plan-Decides p plan = decide_steps_auto p plan.steps
