-- ===== src/Propose/Complete.antt =====
-- The input of `propose_plan` that describes a plan.
use lacs.Prelude.{
  ℕ, suc, String, ◌≡◌, ◌≢◌, refl, sym, ◌∙◌, true, false, Bool-cases, inl, inr, some, List, [], ◌∷◌,
  All, str_eq, contains, eq_iff, false≢true, subst,
}
use lacs.Json.{Value, null, bool, number, string, array, object, Items, nil, cons, end, field, get}
use lacs.Types.Actions.{known_action_names}
use lacs.Plan.{
  PlanRiskLevel, low, medium, high, PlanStep, Plan, new_step, new, done, of_validation, is_empty,
}
use lacs.Propose.{
  Texts, parse_action, parse_risk, parse_params, parse_step, parse_steps, parse_some,
  parse_proposed_plan,
}
use lacs.Propose.Accepted.{IsStep, IsPlan}

abbrev risk_str : PlanRiskLevel → String
risk_str low = "low"
risk_str medium = "medium"
risk_str high = "high"

-- A plan as the model writes it.
unfoldable pub step_value : PlanStep → Value
step_value s = object (
    field "action_name" (string s.action_name.as_str) (
      field "summary" (string s.summary)
        (field "risk_level" (string (risk_str s.risk_level)) (field "params" s.params end))))

unfoldable pub steps_value : List PlanStep → Items
unfolding step_value
steps_value [] = nil
steps_value (s ∷ steps) = cons (step_value s) (steps_value steps)

unfoldable pub plan_value : Plan → Value
unfolding steps_value
plan_value p = object (
    field "summary" (string p.summary) (
      field "explanation" (string p.explanation) (field "steps" (array (steps_value p.steps)) end)))

-- Parameters that are not a JSON text inside a text.
abbrev pub IsDirect : Value → Type 0
IsDirect (string s) = ⊥
IsDirect _ = Unit

filled : (s : String) → s ≢ "" → str_eq s "" ≡ false
filled s h = elim (Bool-cases (str_eq s "")) [ inl e ↦ absurd (h ((eq_iff s "").0 e)) | inr e ↦ e ]

unknown-empty : contains known_action_names "" ≡ false
unfolding known_action_names
unknown-empty = refl

named : (s : PlanStep) → IsStep s → str_eq s.action_name.as_str "" ≡ false
named s h = filled s.action_name.as_str (λ e.
    false≢true (sym unknown-empty ∙ subst (λ n. contains known_action_names n ≡ true) e h.known))

has_step : (steps : List PlanStep) → steps ≢ [] → is_empty steps ≡ false
has_step [] n = absurd (n refl)
has_step (s ∷ steps) n = refl

module _ (std : Texts) where
  parse_params-IsDirect : (i : ℕ) (v : Value) → IsDirect v → parse_params std i (some v) ≡ done v
  unfolding parse_params
  parse_params-IsDirect i null h = refl
  parse_params-IsDirect i (bool b) h = refl
  parse_params-IsDirect i (number s n) h = refl
  parse_params-IsDirect i (string s) h = absurd h
  parse_params-IsDirect i (array vs) h = refl
  parse_params-IsDirect i (object fs) h = refl

  parse_risk-risk_str : (i : ℕ) (r : PlanRiskLevel) → parse_risk i (risk_str r) ≡ done r
  unfolding parse_risk
  parse_risk-risk_str i low = refl
  parse_risk-risk_str i medium = refl
  parse_risk-risk_str i high = refl

  parse_step-step_value :
      (i : ℕ) (s : PlanStep)
      → IsStep s
      → IsDirect s.params
      → parse_step std i (step_value s) ≡ done s
  unfolding parse_step step_value get parse_action new_step of_validation
  parse_step-step_value i s h d =
      rw
        (
          parse_step,
          named s h,
          parse_action,
          h.known,
          filled s.summary h.summary,
          parse_risk-risk_str i s.risk_level,
          parse_params-IsDirect i s.params d,
          new_step,
          filled s.summary h.summary,
        )
        refl

  parse_steps-steps_value :
      (i : ℕ) (steps : List PlanStep)
      → All IsStep steps
      → All (λ s. IsDirect s.params) steps
      → parse_steps std i (steps_value steps) ≡ done steps
  unfolding parse_steps steps_value
  parse_steps-steps_value i [] h d = refl
  parse_steps-steps_value i (s ∷ steps) h d =
      rw (parse_step-step_value i s h.0 d.0, parse_steps-steps_value (suc i) steps h.1 d.1) refl

  parse_some-steps_value :
      (steps : List PlanStep)
      → steps ≢ []
      → All IsStep steps
      → All (λ s. IsDirect s.params) steps
      → parse_some std (steps_value steps) ≡ done steps
  unfolding parse_some steps_value
  parse_some-steps_value [] n h d = absurd (n refl)
  parse_some-steps_value (s ∷ steps) n h d = parse_steps-steps_value 0 (s ∷ steps) h d

  -- Every plan with an intent, a summary, an explanation and steps of the catalogue is taken as it is
  -- from the input that describes it, where the parameters of its steps are not texts.
  pub parse_proposed_plan-plan_value :
      (p : Plan)
      → IsPlan p.intent p
      → All (λ s. IsDirect s.params) p.steps
      → parse_proposed_plan std p.intent (plan_value p) ≡ done p
  unfolding plan_value get parse_proposed_plan new of_validation
  parse_proposed_plan-plan_value p h d =
      rw
        (
          parse_proposed_plan,
          filled p.summary h.summary,
          filled p.explanation h.explanation,
          parse_some-steps_value p.steps h.steps h.each d,
          new,
          filled p.intent h.intended,
          filled p.summary h.summary,
          filled p.explanation h.explanation,
          has_step p.steps h.steps,
          of_validation,
        )
        refl
