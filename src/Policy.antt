-- ===== src/Policy.antt =====
-- crates/sysknife-daemon/src/policy.rs: the minimum role of each action, the operator's overrides
-- and the freshness of an approval. `Policy/Allowlist` has the names of the arms,
-- `Policy/Baseline`, `Policy/Overrides` and `Policy/Freshness` the theorems.
pub mod Allowlist
pub mod Baseline
pub mod Overrides
pub mod Freshness
use lacs.Prelude.{
  String, Bool, true, false, Option, none, some, List, [], ◌∷◌, ltb, leb, str_eq, contains, ℕ,
  if◌then◌else◌,
}
use lacs.Prelude.Text.{codes, trim, to_ascii_lowercase, same_bytes}
use lacs.Types.{
  CallerRole, observer, dev, admin, RiskLevel, low, medium, high, RequestHash, ApprovalHash,
}
use lacs.Types
use lacs.Auth.{role_rank}
use lacs.Policy.Allowlist.{observer_actions, dev_actions, admin_actions}

-- The arms of the `match` are lists of names.
unfoldable pub min_role_for_action : String → Option CallerRole
min_role_for_action action_name =
    if contains observer_actions action_name
    then some observer
    else if contains dev_actions action_name
    then some dev
    else if contains admin_actions action_name
    then some admin
    else none

unfoldable pub action_allowed : CallerRole → String → Bool
action_allowed caller action_name = elim (min_role_for_action action_name) [
  | some required ↦ leb (role_rank required) (role_rank caller)
  | none ↦ false
]

-- `HashMap::get`, and `HashMap::insert` with a key that may be there.
unfoldable pub lookup : List (String × CallerRole) → String → Option CallerRole
lookup [] k = none
lookup ((j, r) ∷ m) k = let rest = lookup m k in if str_eq j k then some r else rest

unfoldable pub insert :
    String → CallerRole → List (String × CallerRole) → List (String × CallerRole)
insert k r [] = (k, r) ∷ []
insert k r ((j, s) ∷ m) =
    let rest = insert k r m in if str_eq j k then (k, r) ∷ m else (j, s) ∷ rest

pub record PolicyTable : Type 0 where
  pub overrides : List (String × CallerRole)

pub data PolicyValidationError : Type 0 where
  unknown_action : String → PolicyValidationError
  invalid_risk_level : String → String → PolicyValidationError
  cannot_lower : String → CallerRole → CallerRole → PolicyValidationError

pub data Result (A : Type 0) : Type 0 where
  ok : A → Result A
  err : PolicyValidationError → Result A

unfoldable pub empty : PolicyTable
empty = record { overrides = [] }

unfoldable pub role_for_risk_level : RiskLevel → CallerRole
role_for_risk_level low = observer
role_for_risk_level medium = dev
role_for_risk_level high = admin

unfoldable pub parse_risk_level : String → Option RiskLevel
unfolding same_bytes trim to_ascii_lowercase
parse_risk_level s =
    let level = to_ascii_lowercase (trim (codes s)) in
    if same_bytes level (codes "low")
    then some low
    else if same_bytes level (codes "medium")
    then some medium
    else if same_bytes level (codes "high")
    then some high
    else none

-- One entry of the operator's table: the role that it asks for, or why it is refused.
unfoldable pub validate_override : String → String → Result CallerRole
validate_override action level_str = elim (min_role_for_action action) [
  | none ↦ err (unknown_action action)
  | some baseline ↦ elim (parse_risk_level level_str) [
    | none ↦ err (invalid_risk_level action level_str)
    | some level ↦
        if ltb (role_rank (role_for_risk_level level)) (role_rank baseline)
        then err (cannot_lower action baseline (role_for_risk_level level))
        else ok (role_for_risk_level level)
  ]
]

-- The loop over the map, which may yield its entries in any order.
unfoldable pub override_loop :
    List (String × CallerRole) → List (String × String) → Result (List (String × CallerRole))
override_loop overrides [] = ok overrides
override_loop overrides ((action, level_str) ∷ raw) = elim (validate_override action level_str) [
  | err e ↦ err e
  | ok attempted ↦ override_loop (insert action attempted overrides) raw
]

unfoldable pub from_overrides : List (String × String) → Result PolicyTable
from_overrides raw = elim (override_loop [] raw) [
  | err e ↦ err e
  | ok overrides ↦ ok (record { overrides = overrides })
]

-- The methods of `PolicyTable` with the names of the free functions above.
unfoldable pub table_min_role : PolicyTable → String → Option CallerRole
table_min_role table action_name = elim (min_role_for_action action_name) [
  | none ↦ none
  | some baseline ↦ elim (lookup table.overrides action_name) [
    | none ↦ some baseline
    | some r ↦ some r
  ]
]

unfoldable pub table_action_allowed : PolicyTable → CallerRole → String → Bool
table_action_allowed table caller action_name = elim (table_min_role table action_name) [
  | some required ↦ leb (role_rank required) (role_rank caller)
  | none ↦ false
]

pub data ApprovalError : Type 0 where
  stale_approval : String → String → ApprovalError

unfoldable pub approval_matches_request : String → String → Bool
approval_matches_request request_hash approval_hash =
    Types.approval_matches_request (record { text = request_hash })
      (record { text = approval_hash })

pub data Fresh : Type 0 where
  fresh : Fresh
  stale : ApprovalError → Fresh

unfoldable pub require_fresh_approval : String → String → Fresh
unfolding approval_matches_request
require_fresh_approval request_hash approval_hash =
    if approval_matches_request request_hash approval_hash
    then fresh
    else stale (stale_approval request_hash approval_hash)
