-- ===== src/QueryTools.antt =====
-- crates/sysknife-brain/src/planning_tools/query_tools.rs: the tools with which the model asks for
-- the state of the system, and the actions of the daemon that answer them. `QueryTools/Answers` has
-- the theorems. The schemas of the tools are not modelled.
pub mod Answers
use lacs.Prelude.{
  String, Bool, true, false, Option, none, some, List, [], ◌∷◌, str_eq, if◌then◌else◌,
}
use lacs.Prelude.Text.{as_bytes, bytes_lt}
use lacs.Json.{Value, string, object, Fields, end, field, get, as_str}
use lacs.Actions.{concat}

-- The action and its parameters; `ok none` is a tool that is not one of these.
pub data Result (A : Type 0) : Type 0 where
  ok : A → Result A
  err : String → Result A

abbrev pub Query : Type 0
Query = Result (Option (String × Value))

abbrev Tool : Type 0
Tool = String × (Value → Query)

-- `Map::insert`: the keys of a map are in their order.
unfoldable pub insert_key : Fields → String → Value → Fields
insert_key end k v = field k v end
insert_key (field j w fs) k v =
    let rest = insert_key fs k v in
    if str_eq j k
    then field k v fs
    else if bytes_lt (as_bytes k) (as_bytes j)
    then field k v (field j w fs)
    else field j w rest

-- `params[key] = value.clone()` where the input has the key
unfoldable pub forward : Value → String → Fields → Fields
unfolding insert_key
forward input key params = elim (get input key) [ none ↦ params | some v ↦ insert_key params key v ]

unfoldable pub require_str_param : Value → String → String → Result String
require_str_param input key tool_name =
    let missing = err (concat (tool_name ∷ " requires '" ∷ key ∷ "' param" ∷ [])) in
    elim (get input key) [
      | none ↦ missing
      | some v ↦ elim (as_str v) [ none ↦ missing | some s ↦ if str_eq s "" then missing else ok s ]
    ]

-- An arm without parameters, and one that forwards a text.
abbrev pub plain : String → String → Tool
plain tool_name action = (tool_name, λ input. ok (some (action, object end)))

abbrev pub with_param : String → String → String → Tool
with_param tool_name action key = (
  tool_name,
  λ input. elim (require_str_param input key tool_name) [
    | ok s ↦ ok (some (action, object (field key (string s) end)))
    | err msg ↦ err msg
  ],
)

-- The arms of the `match` in the order of the source.
unfoldable pub query_arms : List Tool
query_arms =
    plain "query_services" "ListServices"
    ∷ plain "query_firewall" "GetFirewallState"
    ∷ plain "query_deployments" "ListDeployments"
    ∷ plain "query_packages" "GetLayeredPackages"
    ∷ plain "query_containers" "ListContainers"
    ∷ plain "query_users" "ListUsers"
    ∷ with_param "query_logs" "GetServiceLogs" "unit"
    ∷ plain "query_kernel_args" "GetKernelArguments"
    ∷ plain "query_flatpak_remotes" "ListFlatpakRemotes"
    ∷ plain "query_toolboxes" "ListToolboxes"
    ∷ plain "query_groups" "ListGroups"
    ∷ with_param "query_flatpak_info" "GetFlatpakAppInfo" "app_id"
    ∷ with_param "query_container_info" "GetContainerInfo" "name"
    ∷ plain "query_package_repos" "ListPackageRepositories"
    ∷ plain "query_diagnostics" "CollectDiagnostics"
    ∷ plain "query_deployment_history" "GetDeploymentHistory"
    ∷ plain "query_disk_usage" "GetDiskUsage"
    ∷ plain "query_processes" "ListProcesses"
    ∷ plain "query_memory" "GetMemoryInfo"
    ∷ plain "query_network" "GetNetworkStatus"
    ∷ with_param "query_authorized_keys" "GetAuthorizedKeys" "username"
    ∷ (
      "query_job_history",
      λ input. ok (
          some (
            "ListJobHistory",
            object (
                forward input "since_hours" (
                  forward input "action_filter"
                    (forward input "status_filter" (forward input "limit" end)))),
          )),
    )
    ∷ []

-- The first arm with the name, or the last arm of the `match`.
unfoldable pub first_arm : List Tool → String → Value → Query
first_arm [] tool_name input = ok none
first_arm ((name, arm) ∷ tools) tool_name input =
    let rest = first_arm tools tool_name input in if str_eq name tool_name then arm input else rest

unfoldable pub query_tool_to_action : String → Value → Query
unfolding first_arm query_arms
query_tool_to_action = first_arm query_arms
