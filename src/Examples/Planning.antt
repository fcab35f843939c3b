-- ===== src/Examples/Planning.antt =====
-- A plan of one step, and a model that proposes it.
use lacs.Prelude.{
  ℕ, ◌+◌, String, ◌≡◌, ◌≢◌, ◌≤◌, refl, true, Bool, Option, none, some, List, [], ◌∷◌, arith,
}
use lacs.Prelude.Text.{codes}
use lacs.Json.{Value, object, end}
use lacs.Types.Actions.{ActionName}
use lacs.Plan.{Plan, PlanStep, high, PlanningError, Planned, done, fail, provider}
use lacs.Propose.{Texts, parse_proposed_plan}
use lacs.Propose.Accepted.{not_empty, IsStep, IsPlan, parse_proposed_plan-IsPlan}
use lacs.Propose.Complete.{plan_value, parse_proposed_plan-plan_value}
use lacs.Limiter.{lines, or_empty}
use lacs.Prefs
use lacs.Prefs.{append_pref}
use lacs.Prefs.Lines.{Whole, ends, Has, append_pref-present}
use lacs.Planner.{
  Env, Session, Completion, Message, tool_use, tool_use_stop, plan_intent, trim_start, trim_end,
}
use lacs.Planner.Turns.{GoodEnding, plan_intent_bounds}
use lacs.Planner.Gate.{Passed, plan_intent-Passed}

abbrev step : PlanStep
step = record {
  action_name = record { as_str = "RebootSystem" };
  summary = "reboot";
  risk_level = high;
  params = object end;
}

abbrev plan : Plan
plan = record {
  intent = "reboot";
  summary = "reboot the machine";
  explanation = "the machine restarts";
  steps = step ∷ [];
}

step-IsStep : IsStep step
unfolding lacs.Types.Actions.known_action_names
step-IsStep = record { known = refl; summary = not_empty "reboot" refl }

plan-IsPlan : IsPlan "reboot" plan
plan-IsPlan = record {
  same_intent = refl;
  intended = not_empty "reboot" refl;
  summary = not_empty plan.summary refl;
  explanation = not_empty plan.explanation refl;
  steps = λ e. ground arith;
  each = (step-IsStep, _);
}

abbrev texts : Texts
texts = record { from_str = λ s. none; debug = λ s. s }

parse_proposed_plan-plan_value_example :
    parse_proposed_plan texts "reboot" (plan_value plan) ≡ done plan
parse_proposed_plan-plan_value_example =
    parse_proposed_plan-plan_value texts plan plan-IsPlan (_, _)

abbrev plan_input : Value
unfolding plan_value
plan_input = plan_value plan

plan_accepted : parse_proposed_plan texts "reboot" plan_input ≡ done plan
unfolding parse_proposed_plan lacs.Json.get plan_input lacs.Types.Actions.known_action_names
    lacs.Plan.of_validation lacs.Plan.new_step lacs.Plan.new
plan_accepted = refl

parse_proposed_plan-IsPlan_example : IsPlan "reboot" plan
parse_proposed_plan-IsPlan_example =
    parse_proposed_plan-IsPlan texts "reboot" plan_input plan plan_accepted

abbrev answers : (ℕ → List Message → Planned Completion) → Env
answers complete = record {
  max_turns = 8;
  prefs_set = true;
  persists = true;
  audit_set = true;
  complete = complete;
  curated_state = λ n. done (codes "{}");
  query_action = λ n action params. done "";
  current_user = λ n. done "alice";
  display = λ e. "rejected";
  io_message = "disk full";
  texts = texts;
  to_lowercase = λ s. s;
  nfc_normalise = λ s. s;
}

-- A model that proposes the plan, and a provider that cannot be reached.
abbrev env : Env
unfolding plan_input
env = answers (λ n messages. done (record {
  content = tool_use "fc_1" none "propose_plan" plan_input ∷ [];
  stop_reason = tool_use_stop;
}))

abbrev unreachable : Env
unreachable = answers (λ n messages. fail (provider "no route"))

abbrev start : Session
start = record { prefs = none; audit = []; calls = 0; asked = 0 }

plan_intent_bounds_example :
    ((plan_intent env none " reboot\n" start).1.calls ≤ 0 + 8)
    × GoodEnding (trim_end (trim_start " reboot\n")) (plan_intent env none " reboot\n" start).0
unfolding env
plan_intent_bounds_example = plan_intent_bounds env none " reboot\n" start

asked_once : (plan_intent unreachable none "reboot" start).1.calls ≡ 1
unfolding plan_intent lacs.Prelude.Text.is_whitespace lacs.Prelude.Text.as_bytes
asked_once = refl

was_asked : (plan_intent unreachable none "reboot" start).1.calls ≢ 0
was_asked e = omega (arith, e, asked_once)

plan_intent-Passed_example : Passed unreachable none (trim_end (trim_start "reboot"))
plan_intent-Passed_example = plan_intent-Passed unreachable none "reboot" start was_asked

-- A preference after another.
abbrev emacs : List ℕ
emacs = codes "use emacs"

abbrev with_vim : Option (List ℕ)
with_vim = some (codes "- use vim\n")

abbrev with_both : Option (List ℕ)
with_both = some (codes "- use vim\n- use emacs\n")

emacs_saved : append_pref true emacs with_vim ≡ (Prefs.ok, with_both)
unfolding append_pref lacs.Prelude.Text.same_bytes lacs.Prelude.Text.encode
emacs_saved = refl

with_vim-Whole : Whole (or_empty with_vim)
unfolding or_empty
with_vim-Whole = ends (codes "- use vim")

append_pref-present_example : Has emacs (lines (or_empty with_both))
append_pref-present_example =
    append_pref-present true emacs with_vim with_both with_vim-Whole emacs_saved

-- A file that does not end in a line feed, by which the preference is glued to another.
emacs_glued :
    append_pref true emacs (some (codes "- use vim"))
    ≡ (Prefs.ok, some (codes "- use vim- use emacs\n"))
unfolding append_pref lacs.Prelude.Text.same_bytes lacs.Prelude.Text.encode
emacs_glued = refl
