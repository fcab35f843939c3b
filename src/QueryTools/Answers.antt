-- ===== src/QueryTools/Answers.antt =====
-- What the daemon does with the action of a query.
use lacs.Prelude.{
  String, ◌≡◌, ◌&&◌, refl, Bool, true, false, Bool-cases, inl, inr, Option, none, some, List, [],
  ◌∷◌, arith, All, contains, str_eq, eq_iff, subst, false≢true,
}
use lacs.Json.{Value, string, object, end, field}
use lacs.Types.{CallerRole, observer, dev, boot, admin}
use lacs.Types.Actions.{known_action_names}
use lacs.Executor
use lacs.Executor.{missing_param}
use lacs.Params.{Std}
use lacs.Build.{build_action_spec}
use lacs.Policy.{min_role_for_action}
use lacs.QueryTools.{
  Tool, Result, ok, err, plain, with_param, query_arms, first_arm, query_tool_to_action,
  require_str_param,
}

abbrev is_observer : Option CallerRole → Bool
is_observer (some observer) = true
is_observer _ = false

both :
    (b : Bool) (r : Option CallerRole)
    → (b && is_observer r) ≡ true
    → (b ≡ true) × (r ≡ some observer)
both true (some observer) h = (refl, refl)
both true (some boot) h = absurd (false≢true h)
both true (some dev) h = absurd (false≢true h)
both true (some admin) h = absurd (false≢true h)
both true none h = absurd (false≢true h)
both false r h = absurd (false≢true h)

-- An action that is in the catalogue and that every caller may invoke.
unfoldable pub is_read_only : String → Bool
unfolding min_role_for_action known_action_names
is_read_only action = contains known_action_names action && is_observer (min_role_for_action action)

abbrev Asks : Result (Option (String × Value)) → Type 0
Asks (err msg) = Unit
Asks (ok none) = Unit
Asks (ok (some (action, params))) = is_read_only action ≡ true

abbrev Sound : Tool → Type 0
Sound tool = (input : Value) → Asks (tool.1 input)

Asks-first_arm :
    (tools : List Tool) (tool_name : String) (input : Value)
    → All Sound tools
    → Asks (first_arm tools tool_name input)
unfolding first_arm
Asks-first_arm [] tool_name input s = _
Asks-first_arm (tool ∷ tools) tool_name input s = elim (Bool-cases (str_eq tool.0 tool_name)) [
  | inl e ↦ rw e (s.0 input)
  | inr e ↦ rw e (Asks-first_arm tools tool_name input s.1)
]

Sound-plain :
    (tool_name action : String) → is_read_only action ≡ true → Sound (plain tool_name action)
Sound-plain tool_name action r input = r

Sound-with_param :
    (tool_name action key : String)
    → is_read_only action ≡ true
    → Sound (with_param tool_name action key)
Sound-with_param tool_name action key r input = asks (require_str_param input key tool_name)
  where
    asks :
        (read : Result String)
        → Asks (elim read [
          | ok s ↦ ok (some (action, object (field key (string s) end)))
          | err msg ↦ err msg
        ])
    asks (ok s) = r
    asks (err msg) = _

query_arms-Sound : All Sound query_arms
unfolding query_arms is_read_only lacs.Policy.Allowlist.observer_actions
query_arms-Sound = (
  λ input. refl,
  (
    λ input. refl,
    (
      λ input. refl,
      (
        λ input. refl,
        (
          λ input. refl,
          (
            λ input. refl,
            (
              Sound-with_param "query_logs" "GetServiceLogs" "unit" refl,
              (
                λ input. refl,
                (
                  λ input. refl,
                  (
                    λ input. refl,
                    (
                      λ input. refl,
                      (
                        Sound-with_param "query_flatpak_info" "GetFlatpakAppInfo" "app_id" refl,
                        (
                          Sound-with_param "query_container_info" "GetContainerInfo" "name" refl,
                          (
                            λ input. refl,
                            (
                              λ input. refl,
                              (
                                λ input. refl,
                                (
                                  λ input. refl,
                                  (
                                    λ input. refl,
                                    (
                                      λ input. refl,
                                      (
                                        λ input. refl,
                                        (
                                          Sound-with_param "query_authorized_keys"
                                              "GetAuthorizedKeys" "username" refl,
                                          (λ input. refl, _),
                                        ),
                                      ),
                                    ),
                                  ),
                                ),
                              ),
                            ),
                          ),
                        ),
                      ),
                    ),
                  ),
                ),
              ),
            ),
          ),
        ),
      ),
    ),
  ),
)

IsReadOnly-of :
    (action : String)
    → is_read_only action ≡ true
    → (contains known_action_names action ≡ true) × (min_role_for_action action ≡ some observer)
unfolding is_read_only
IsReadOnly-of action h = both (contains known_action_names action) (min_role_for_action action) h

-- An action that a tool asks for is one of the catalogue, and one that a caller of the lowest role
-- may invoke.
pub query_tool_to_action-read_only :
    (tool_name : String) (input : Value) (action : String) (params : Value)
    → query_tool_to_action tool_name input ≡ ok (some (action, params))
    → (contains known_action_names action ≡ true) × (min_role_for_action action ≡ some observer)
unfolding query_tool_to_action
query_tool_to_action-read_only tool_name input action params h = IsReadOnly-of action (
    subst Asks {x = query_tool_to_action tool_name input} {y = ok (some (action, params))} h
      (Asks-first_arm query_arms tool_name input query_arms-Sound))

-- The tools whose action needs the name of a user, which none of them has as a parameter.
abbrev pub nameless_tools : List String
nameless_tools =
    "query_containers" ∷ "query_flatpak_remotes" ∷ "query_toolboxes" ∷ "query_flatpak_info"
    ∷ "query_container_info" ∷ []

abbrev Unanswered : Std → Result (Option (String × Value)) → Type 0
Unanswered std (err msg) = Unit
Unanswered std (ok none) = Unit
Unanswered std (ok (some (action, params))) =
    build_action_spec std action params ≡ Executor.err (missing_param "username")

module _ (std : Std) (input : Value) where
  with_param_fails :
      (tool_name action key : String)
      → ((text : String)
          → build_action_spec std action (object (field key (string text) end))
            ≡ Executor.err (missing_param "username"))
      → Unanswered std ((with_param tool_name action key).1 input)
  with_param_fails tool_name action key fails = unanswered (require_str_param input key tool_name)
    where
      unanswered :
          (read : Result String)
          → Unanswered std (elim read [
            | ok s ↦ ok (some (action, object (field key (string s) end)))
            | err msg ↦ err msg
          ])
      unanswered (ok s) = fails s
      unanswered (err msg) = _

  containers_fail : Unanswered std (query_tool_to_action "query_containers" input)
  unfolding query_tool_to_action build_action_spec lacs.Build.Ostree.deployment_arms
      lacs.Build.Userland.flatpak_arms lacs.Build.Userland.container_arms
      lacs.Params.resolve_username lacs.Json.get
  containers_fail = refl

  remotes_fail : Unanswered std (query_tool_to_action "query_flatpak_remotes" input)
  unfolding query_tool_to_action build_action_spec lacs.Build.Ostree.deployment_arms
      lacs.Build.Userland.flatpak_arms lacs.Params.resolve_username lacs.Json.get
  remotes_fail = refl

  toolboxes_fail : Unanswered std (query_tool_to_action "query_toolboxes" input)
  unfolding query_tool_to_action build_action_spec lacs.Build.Ostree.deployment_arms
      lacs.Build.Userland.flatpak_arms lacs.Build.Userland.container_arms
      lacs.Build.Ostree.layering_arms lacs.Build.Ostree.repository_arms lacs.Build.Host.service_arms
      lacs.Build.Userland.toolbox_arms lacs.Params.resolve_username lacs.Json.get
  toolboxes_fail = refl

  flatpak_info_fails : Unanswered std (query_tool_to_action "query_flatpak_info" input)
  unfolding query_tool_to_action build_action_spec lacs.Build.Ostree.deployment_arms
      lacs.Build.Userland.flatpak_arms lacs.Params.resolve_username lacs.Json.get
  flatpak_info_fails =
      with_param_fails "query_flatpak_info" "GetFlatpakAppInfo" "app_id" (λ text. refl)

  container_info_fails : Unanswered std (query_tool_to_action "query_container_info" input)
  unfolding query_tool_to_action build_action_spec lacs.Build.Ostree.deployment_arms
      lacs.Build.Userland.flatpak_arms lacs.Build.Userland.container_arms
      lacs.Params.resolve_username lacs.Json.get
  container_info_fails =
      with_param_fails "query_container_info" "GetContainerInfo" "name" (λ text. refl)

  nameless_fail :
      All (λ tool_name. Unanswered std (query_tool_to_action tool_name input)) nameless_tools
  nameless_fail = (
    containers_fail,
    (remotes_fail, (toolboxes_fail, (flatpak_info_fails, (container_info_fails, _)))),
  )

All-contains :
    (P : String → Type 0) (xs : List String) (s : String) → All P xs → contains xs s ≡ true → P s
All-contains P [] s h m = absurd (false≢true m)
All-contains P (x ∷ xs) s h m = elim (Bool-cases (str_eq x s)) [
  | inl e ↦ subst P ((eq_iff x s).0 e) h.0
  | inr e ↦ All-contains P xs s h.1 (ground arith)
]

-- The query tools for containers, toolboxes and Flatpak remotes, for an app and for a container ask
-- for an action that the daemon never builds: the name of the user is missing, whatever the model
-- gives the tool.
pub nameless_tools-unanswered :
    (std : Std) (tool_name : String) (input : Value) (action : String) (params : Value)
    → contains nameless_tools tool_name ≡ true
    → query_tool_to_action tool_name input ≡ ok (some (action, params))
    → build_action_spec std action params ≡ Executor.err (missing_param "username")
nameless_tools-unanswered std tool_name input action params m h =
    subst (Unanswered std) {x = query_tool_to_action tool_name input}
      {y = ok (some (action, params))} h
      (All-contains (λ t. Unanswered std (query_tool_to_action t input)) nameless_tools tool_name
        (nameless_fail std input) m)
