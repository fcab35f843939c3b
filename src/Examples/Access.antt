-- ===== src/Examples/Access.antt =====
-- Roles, the policy, approvals and jobs.
use lacs.Prelude.{
  ℕ, String, ◌≡◌, ◌≢◌, ◌⊎◌, ◌↔◌, refl, Bool, true, false, Option, none, some, List, [], ◌∷◌, ◌≤◌,
  All, arith, contains, zero,
}
use lacs.Types.{dev, admin, JobState, queued, running, succeeded}
use lacs.Auth.{role_rank, validate_token_against_file, token_role}
use lacs.Policy.{
  PolicyTable, Result, ok, err, min_role_for_action, action_allowed, from_overrides,
  table_action_allowed, require_fresh_approval, fresh, stale, stale_approval,
}
use lacs.Policy.Overrides.{Raises, table_action_allowed-baseline, from_overrides-iff-All}
use lacs.Jobs.{JobStateMachine, new, transition_to, is_terminal, invalid_transition}
use lacs.Jobs
use lacs.Jobs.Lifecycle.{Edge, transition_to_cases}

abbrev raw : List (String × String)
raw = ("AptInstall", "HIGH") ∷ []

abbrev table : PolicyTable
table = record { overrides = ("AptInstall", admin) ∷ [] }

raw_accepted : from_overrides raw ≡ ok table
unfolding from_overrides lacs.Policy.override_loop lacs.Policy.validate_override min_role_for_action
    lacs.Policy.Allowlist.observer_actions lacs.Policy.Allowlist.dev_actions
    lacs.Policy.parse_risk_level role_rank lacs.Policy.role_for_risk_level lacs.Policy.insert
raw_accepted = refl

admin_may : table_action_allowed table admin "AptInstall" ≡ true
unfolding table_action_allowed lacs.Policy.table_min_role min_role_for_action
    lacs.Policy.Allowlist.observer_actions lacs.Policy.Allowlist.dev_actions lacs.Policy.lookup
    role_rank
admin_may = refl

table_action_allowed-baseline_example : action_allowed admin "AptInstall" ≡ true
table_action_allowed-baseline_example =
    table_action_allowed-baseline raw table admin "AptInstall" raw_accepted admin_may

from_overrides-iff-All_example : ((t : PolicyTable) × (from_overrides raw ≡ ok t)) ↔ All Raises raw
from_overrides-iff-All_example = from_overrides-iff-All raw

abbrev asked : String
asked = "h1"

abbrev approved : String
approved = "h2"

dev_may : action_allowed dev "AptInstall" ≡ true
unfolding action_allowed min_role_for_action lacs.Policy.Allowlist.observer_actions
    lacs.Policy.Allowlist.dev_actions role_rank
dev_may = refl

token_accepted : validate_token_against_file "secret" (some " secret\n") "ADMIN" ≡ some admin
unfolding validate_token_against_file lacs.Prelude.Text.encode lacs.Prelude.Text.trim
    lacs.Prelude.Text.as_bytes lacs.Prelude.Text.same_bytes token_role
token_accepted = refl

abbrev groups : List String
groups = "users" ∷ "wheel" ∷ "sysknife-dev" ∷ []

transition_to_cases_example :
    (Edge queued succeeded
      × (transition_to (record { job_id = "j"; state = queued }) succeeded
          ≡ (record { job_id = "j"; state = succeeded }, Jobs.ok)))
    ⊎ ((¬ Edge queued succeeded)
        × (transition_to (record { job_id = "j"; state = queued }) succeeded ≡ (
          record { job_id = "j"; state = queued },
          Jobs.err (invalid_transition queued succeeded),
        )))
transition_to_cases_example =
    transition_to_cases (record { job_id = "j"; state = queued }) succeeded

abbrev requests : List JobState
requests = succeeded ∷ running ∷ succeeded ∷ running ∷ []
