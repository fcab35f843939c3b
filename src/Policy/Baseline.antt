-- ===== src/Policy/Baseline.antt =====
-- The compile-time table of crates/sysknife-daemon/src/policy.rs.
use lacs.Prelude.{
  String, ◌≡◌, ◌↔◌, refl, true, false, ◌||◌, List, [], ◌∷◌, ◌++◌, none, some, contains, all, arith,
  leb, ◌≤◌, contains_of_all, same_of_iff,
}
use lacs.Types.Actions
use lacs.Types.{CallerRole, admin}
use lacs.Types.Actions.{known_action_names, ParseResult, ok}
use lacs.Auth.{role_rank}
use lacs.Policy.{min_role_for_action, action_allowed}
use lacs.Policy.Allowlist.{observer_actions, dev_actions, admin_actions}

contains-append :
    (xs ys : List String) (s : String) → contains (xs ++ ys) s ≡ (contains xs s || contains ys s)
contains-append [] ys s = ground arith
contains-append (x ∷ xs) ys s = ground (arith, contains-append xs ys s)

abbrev allowlist : List String
allowlist = observer_actions ++ (dev_actions ++ admin_actions)

catalogue-allowlist : all (contains allowlist) known_action_names ≡ true
unfolding known_action_names observer_actions dev_actions admin_actions
catalogue-allowlist = refl

allowlist-catalogue : all (contains known_action_names) allowlist ≡ true
unfolding known_action_names observer_actions dev_actions admin_actions
allowlist-catalogue = refl

catalogue : (name : String) → contains known_action_names name ≡ contains allowlist name
catalogue name =
    same_of_iff _ _ (contains_of_all known_action_names allowlist name catalogue-allowlist)
      (contains_of_all allowlist known_action_names name allowlist-catalogue)

-- whether an action is known, and its minimum role is within an admin's rank
known :
    (name : String)
    → contains allowlist name ≡ (elim (min_role_for_action name) [
      | none ↦ false
      | some r ↦ leb (role_rank r) (role_rank admin)
    ])
unfolding min_role_for_action role_rank
known name = rw contains-append (rw contains-append (ground arith))

some_known :
    (name : String)
    → contains allowlist name ≡ (elim (min_role_for_action name) [ none ↦ false | some r ↦ true ])
unfolding min_role_for_action
some_known name = rw contains-append (rw contains-append (ground arith))

-- The policy knows exactly the names of the catalogue: an action has no minimum role exactly when
-- `ActionName::parse` rejects its name.
pub min_role-none-iff-unknown :
    (name : String)
    → (min_role_for_action name ≡ none)
      ↔ (Actions.parse name ≡ ParseResult.unknown_action_name name)
unfolding Actions.parse
min_role-none-iff-unknown name = (
  λ h. ground (arith, catalogue name, some_known name),
  λ h. ground (arith, catalogue name, some_known name),
)

-- No action is out of an admin's reach: an admin may call exactly the names of the catalogue.
pub action_allowed-admin :
    (name : String) → action_allowed admin name ≡ contains known_action_names name
unfolding action_allowed
action_allowed-admin name = ground (arith, catalogue name, known name)

-- A caller of higher rank may call whatever a caller of lower rank may.
pub action_allowed_mono :
    (lower higher : CallerRole) (name : String)
    → role_rank lower ≤ role_rank higher
    → action_allowed lower name ≡ true
    → action_allowed higher name ≡ true
unfolding action_allowed
action_allowed_mono lower higher name h allowed = ground arith
