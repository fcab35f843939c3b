-- ===== src/Propose.antt =====
-- crates/sysknife-brain/src/planning_tools/propose_plan.rs: how the input of `propose_plan` becomes a
-- plan. The reader of JSON texts and the `Debug` form of a text are parameters. `Propose/Accepted` is
-- about the plans that come out, `Propose/Complete` about the inputs that are taken.
pub mod Accepted
pub mod Complete
use lacs.Prelude.{
  ℕ, suc, String, Bool, true, false, Option, none, some, List, [], ◌∷◌, str_eq, if◌then◌else◌,
}
use lacs.Json.{Value, string, array, object, Items, nil, cons, end, get, as_str}
use lacs.Types.Actions.{ActionName, ParseResult, parse}
use lacs.Actions.{concat, u32_to_string}
use lacs.Plan.{
  PlanRiskLevel, low, medium, high, PlanStep, Plan, new_step, new, PlanningError,
  invalid_plan_output, Planned, done, fail, ◌>>=◌, ok_or, of_validation,
}

-- `serde_json::from_str` and `{s:?}`
pub record Texts : Type 0 where
  pub from_str : String → Option Value
  pub debug : String → String

-- `get(key).and_then(as_str)`, and with a filter for the empty text
abbrev pub text_at : Value → String → Option String
text_at v key = elim (get v key) [ none ↦ none | some w ↦ as_str w ]

abbrev pub nonempty : Option String → Option String
nonempty none = none
nonempty (some s) = if str_eq s "" then none else some s

abbrev pub as_array : Value → Option Items
as_array (array vs) = some vs
as_array _ = none

abbrev pub array_at : Value → String → Option Items
array_at v key = elim (get v key) [ none ↦ none | some w ↦ as_array w ]

-- The message about the step `i`.
abbrev pub step_error : ℕ → List String → PlanningError
step_error i parts = invalid_plan_output (concat ("step " ∷ u32_to_string i ∷ ": " ∷ parts))

unfoldable pub parse_action : ℕ → String → Planned ActionName
unfolding parse
parse_action i name = elim (parse name) [
  | ParseResult.ok action_name ↦ done action_name
  | ParseResult.unknown_action_name _ ↦
      fail (step_error i ("unknown action_name '" ∷ name ∷ "'" ∷ []))
]

unfoldable pub parse_risk : ℕ → String → Planned PlanRiskLevel
parse_risk i risk_str =
    if str_eq risk_str "low"
    then done low
    else if str_eq risk_str "medium"
    then done medium
    else if str_eq risk_str "high"
    then done high
    else fail (step_error i ("invalid risk_level '" ∷ risk_str ∷ "'" ∷ []))

module _ (std : Texts) where
  -- The parameters of a step: a text is read as JSON, and an empty one is no parameters.
  unfoldable pub parse_params : ℕ → Option Value → Planned Value
  parse_params i none = done (object end)
  parse_params i (some (string s)) =
      if str_eq s ""
      then done (object end)
      else ok_or (std.from_str s) (step_error i ("'params' is not valid JSON: " ∷ std.debug s ∷ []))
  parse_params i (some v) = done v

  -- One round of the loop.
  unfoldable pub parse_step : ℕ → Value → Planned PlanStep
  unfolding parse_action parse_risk parse_params
  parse_step i step_val = do
    action_name_str ←
        ok_or (nonempty (text_at step_val "action_name"))
          (step_error i ("missing 'action_name'" ∷ []))
    action_name ← parse_action i action_name_str
    step_summary ←
        ok_or (nonempty (text_at step_val "summary")) (step_error i ("missing 'summary'" ∷ []))
    risk_str ← ok_or (text_at step_val "risk_level") (step_error i ("missing 'risk_level'" ∷ []))
    risk_level ← parse_risk i risk_str
    params ← parse_params i (get step_val "params")
    of_validation (new_step action_name step_summary risk_level params)

  unfoldable pub parse_steps : ℕ → Items → Planned (List PlanStep)
  unfolding parse_step
  parse_steps i nil = done []
  parse_steps i (cons v vs) = do
    step ← parse_step i v
    steps ← parse_steps (suc i) vs
    done (step ∷ steps)

  -- The test that there is a step, and the loop.
  unfoldable pub parse_some : Items → Planned (List PlanStep)
  unfolding parse_steps
  parse_some nil = fail (invalid_plan_output "'steps' must not be empty")
  parse_some vs = parse_steps 0 vs

  unfoldable pub parse_proposed_plan : String → Value → Planned Plan
  unfolding parse_some
  parse_proposed_plan intent input = do
    summary ←
        ok_or (nonempty (text_at input "summary"))
          (invalid_plan_output "missing or empty 'summary'")
    explanation ←
        ok_or (nonempty (text_at input "explanation"))
          (invalid_plan_output "missing or empty 'explanation'")
    steps_value ← ok_or (array_at input "steps") (invalid_plan_output "'steps' must be an array")
    steps ← parse_some steps_value
    of_validation (new intent summary explanation steps)
