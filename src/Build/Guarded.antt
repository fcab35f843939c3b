-- ===== src/Build/Guarded.antt =====
-- crates/sysknife-daemon/src/executor.rs with policy.rs: what `build_action_spec` returns against the
-- policy and against `rollback_spec_for`.
use lacs.Prelude.{
  String, ◌≡◌, ◌≤◌, inl, inr, refl, sym, subst, Bool, true, ◌&&◌, none, some, List, contains,
  eq_iff, arith, Bool-cases, Option-cases,
}
use lacs.Json.{Value}
use lacs.Types.{CallerRole}
use lacs.Auth.{role_rank}
use lacs.Policy
use lacs.Policy.{
  PolicyTable, from_overrides, table_action_allowed, role_for_risk_level, action_allowed,
  min_role_for_action,
}
use lacs.Policy.Overrides.{table_action_allowed-baseline}
use lacs.Executor.{ActionSpec, ok}
use lacs.Params.{Std}
use lacs.Build.{build_action_spec, rollback_spec_for, rollback_names}
use lacs.Build.Sound.{agrees, covers, announces, discloses}
use lacs.Build.Catalogue.{built_agrees}

all_four :
    (a b c d : Bool) → (a && b && c && d) ≡ true → (a ≡ true) × (b ≡ true) × (c ≡ true) × (d ≡ true)
all_four a b c d h = ground arith

pub agrees_lem :
    (name : String) (spec : ActionSpec)
    → agrees name spec ≡ true
    → (spec.action_name ≡ name)
      × (covers name spec ≡ true)
      × (announces name spec ≡ true)
      × (discloses name spec ≡ true)
unfolding agrees
agrees_lem name spec h =
    let (same, covered, announced, disclosed) = all_four _ _ _ _ h in
    ((eq_iff spec.action_name name).0 same, covered, announced, disclosed)

-- the role of the risk level, the minimum role, the caller's role
risk_within :
    (caller : CallerRole) (name : String) (spec : ActionSpec)
    → action_allowed caller name ≡ true
    → covers name spec ≡ true
    → role_rank (role_for_risk_level spec.risk_level) ≤ role_rank caller
unfolding action_allowed covers
risk_within caller name spec allowed covered = elim (Option-cases (min_role_for_action name)) [
  | inl unknown ↦ absurd (ground arith)
  | inr (r, known) ↦ ground arith
]

flags :
    (name : String) (spec rollback : ActionSpec)
    → announces name spec ≡ true
    → rollback_spec_for name ≡ some rollback
    → (spec.rollback_available ≡ true) × (spec.reboot_required ≡ true)
unfolding announces
flags name spec rollback announced there_is = ground arith

rollback_name :
    (name : String) (rollback : ActionSpec)
    → rollback_spec_for name ≡ some rollback
    → rollback.action_name ≡ "RollbackDeployment"
unfolding rollback_spec_for
rollback_name name rollback there_is = elim (Bool-cases (contains rollback_names name)) [
  | inl listed ↦ ground arith
  | inr unlisted ↦ absurd (ground arith)
]

no_second_rollback :
    (name : String) (rollback : ActionSpec)
    → rollback_spec_for name ≡ some rollback
    → rollback_spec_for rollback.action_name ≡ none
unfolding rollback_spec_for
no_second_rollback name rollback there_is =
    subst (λ n. rollback_spec_for n ≡ none) (sym (rollback_name name rollback there_is)) refl

-- With a table of overrides that was accepted: an action that a caller may run is built, if at all,
-- under the name that was asked, and with a risk level whose role the caller has.
pub build_action_spec-risk :
    (std : Std) (raw : List (String × String)) (table : PolicyTable) (caller : CallerRole)
    (name : String) (params : Value) (spec : ActionSpec)
    → from_overrides raw ≡ Policy.ok table
    → table_action_allowed table caller name ≡ true
    → build_action_spec std name params ≡ ok spec
    → (spec.action_name ≡ name)
      × (role_rank (role_for_risk_level spec.risk_level) ≤ role_rank caller)
build_action_spec-risk std raw table caller name params spec accepted allowed built =
    let (same, covered, announced, disclosed) =
      agrees_lem name spec (built_agrees std name params spec built) in
    (
      same,
      risk_within caller name spec
          (table_action_allowed-baseline raw table caller name accepted allowed) covered,
    )

-- An action for which a rollback is defined is built as one that has a rollback and needs a reboot,
-- and the rollback has none itself.
pub build_action_spec-rollback :
    (std : Std) (name : String) (params : Value) (spec rollback : ActionSpec)
    → build_action_spec std name params ≡ ok spec
    → rollback_spec_for name ≡ some rollback
    → (spec.rollback_available ≡ true)
      × (spec.reboot_required ≡ true)
      × (rollback_spec_for rollback.action_name ≡ none)
build_action_spec-rollback std name params spec rollback built there_is =
    let (same, covered, announced, disclosed) =
      agrees_lem name spec (built_agrees std name params spec built) in
    let (available, reboot) = flags name spec rollback announced there_is in
    (available, reboot, no_second_rollback name rollback there_is)
