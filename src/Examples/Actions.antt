-- ===== src/Examples/Actions.antt =====
-- Actions that are built, shown and run. The standard library's parsers are replaced by functions that
-- know no address and leave a text as it is.
use lacs.Prelude.{
  ℕ, String, ◌≡◌, ◌≤◌, ◌<◌, ◌↔◌, ◌⊎◌, refl, Bool, true, false, Option, none, some, List, [], ◌∷◌,
  ◌++◌, contains,
}
use lacs.Json.{Value, null, string, object, field, end}
use lacs.Types.{high, admin, RequestEnvelope, PreviewEnvelope}
use lacs.Types.Actions.{known_action_names}
use lacs.Auth.{role_rank}
use lacs.Policy
use lacs.Policy.{PolicyTable, from_overrides, table_action_allowed, role_for_risk_level}
use lacs.Executor.{ActionSpec, command, ok, err, unknown_action, invalid_param}
use lacs.Params.{Std}
use lacs.Prelude.Text.{codes}
use lacs.Actions.{u32_to_string}
use lacs.Actions.Containers.{create_container, create_toolbox}
use lacs.Actions.Users.{create_user}
use lacs.Actions.Snap.{snap_install}
use lacs.Actions.Deployment.{set_kernel_arguments, pin_deployment}
use lacs.Actions.Quoted.{create_container_quoted}
use lacs.Validate.SafeArg.{IsSafe, validated_safe_arg-IsSafe}
use lacs.Validate.{split, validated_safe_arg, validated_unit_name}
use lacs.Build.{build_action_spec, rollback_spec_for}
use lacs.Build.Catalogue.{build_action_spec-unknown_iff}
use lacs.Build.Guarded.{build_action_spec-risk}
use lacs.Build.Sound.{understated}
use lacs.Preview.{preview_action}
use lacs.Preview.Shown.{preview_action-risk}

abbrev pub std : Std
std = record { ip_from_str = λ s. none; to_lowercase = λ s. s }

abbrev unit : Value
unit = object (field "unit" (string "cups.service") end)

abbrev mask : ActionSpec
mask = record {
  action_name = "MaskService";
  mechanism = command "sudo" ("systemctl" ∷ "mask" ∷ "cups.service" ∷ []);
  risk_level = high;
  reboot_required = false;
  rollback_available = false;
}

mask_built : build_action_spec std "MaskService" unit ≡ ok mask
unfolding build_action_spec lacs.Build.Ostree.deployment_arms lacs.Build.Userland.flatpak_arms
    lacs.Build.Userland.container_arms lacs.Build.Ostree.layering_arms
    lacs.Build.Ostree.repository_arms lacs.Build.Host.service_arms lacs.Params.require_str
    lacs.Json.get lacs.Validate.validated_unit_name
mask_built = refl

abbrev pub update : ActionSpec
update = record {
  action_name = "UpdateSystem";
  mechanism = command "sudo" ("rpm-ostree" ∷ "upgrade" ∷ []);
  risk_level = high;
  reboot_required = true;
  rollback_available = true;
}

pub update_built : build_action_spec std "UpdateSystem" null ≡ ok update
unfolding build_action_spec lacs.Build.Ostree.deployment_arms
update_built = refl

abbrev pub no_overrides : PolicyTable
no_overrides = record { overrides = [] }

no_overrides_accepted : from_overrides [] ≡ Policy.ok no_overrides
unfolding from_overrides Policy.override_loop
no_overrides_accepted = refl

admin_masks : table_action_allowed no_overrides admin "MaskService" ≡ true
unfolding table_action_allowed Policy.table_min_role Policy.min_role_for_action
    lacs.Policy.Allowlist.observer_actions lacs.Policy.Allowlist.dev_actions
    lacs.Policy.Allowlist.admin_actions Policy.lookup role_rank
admin_masks = refl

build_action_spec-risk_example :
    (mask.action_name ≡ "MaskService")
    × (role_rank (role_for_risk_level mask.risk_level) ≤ role_rank admin)
build_action_spec-risk_example =
    build_action_spec-risk std [] no_overrides admin "MaskService" unit mask no_overrides_accepted
      admin_masks mask_built

abbrev history : String
history = "ListJobHistory"

build_action_spec-unknown_iff_example :
    (build_action_spec std history null ≡ err (unknown_action history))
    ↔ ((contains known_action_names history ≡ false) ⊎ (history ≡ history))
build_action_spec-unknown_iff_example = build_action_spec-unknown_iff std history null

abbrev rollback : ActionSpec
rollback = record {
  action_name = "RollbackDeployment";
  mechanism = command "rpm-ostree" ("rollback" ∷ []);
  risk_level = high;
  reboot_required = true;
  rollback_available = false;
}

update_rolls_back : rollback_spec_for "UpdateSystem" ≡ some rollback
unfolding rollback_spec_for
update_rolls_back = refl

abbrev request : String → Value → RequestEnvelope
request name params = record {
  action_name = name;
  request_id = "r1";
  params = params;
  caller_role = admin;
  request_hash = record { text = "h1" };
}

abbrev grub : String
grub = "GrubSetKargs"

abbrev mask_shown : PreviewEnvelope
mask_shown = preview_action (request "MaskService" unit) null null

preview_action-risk_example :
    ((role_rank (role_for_risk_level mask_shown.risk_level)
        < role_rank (role_for_risk_level mask.risk_level))
      ↔ (contains understated "MaskService" ≡ true))
    × (((mask.reboot_required ≡ true) × (mask_shown.reboot_required ≡ false))
        ↔ (grub ≡ "MaskService"))
preview_action-risk_example =
    preview_action-risk std (request "MaskService" unit) null null mask mask_built

abbrev stdcpp : String
stdcpp = "libstdc++6"

package_accepted : validated_safe_arg stdcpp "package" ≡ ok stdcpp
unfolding validated_safe_arg lacs.Prelude.Text.as_bytes
package_accepted = refl

validated_safe_arg-IsSafe_example : (stdcpp ≡ stdcpp) × IsSafe stdcpp
validated_safe_arg-IsSafe_example =
    validated_safe_arg-IsSafe stdcpp "package" stdcpp package_accepted

-- two that the checks refuse
option_refused :
    validated_safe_arg "--allow-unauthenticated" "package" ≡ err (invalid_param "package")
unfolding validated_safe_arg lacs.Prelude.Text.as_bytes
option_refused = refl

command_refused : validated_safe_arg "curl;reboot" "package" ≡ err (invalid_param "package")
unfolding validated_safe_arg lacs.Prelude.Text.as_bytes
command_refused = refl

-- a unit name may look like an option
option_unit : validated_unit_name "--help" "unit" ≡ ok "--help"
unfolding validated_unit_name
option_unit = refl

name_accepted : validated_safe_arg "web" "name" ≡ ok "web"
unfolding validated_safe_arg lacs.Prelude.Text.as_bytes
name_accepted = refl

image_accepted : validated_safe_arg "docker.io/nginx:1" "image" ≡ ok "docker.io/nginx:1"
unfolding validated_safe_arg lacs.Prelude.Text.as_bytes
image_accepted = refl

create_container_quoted_example :
    (script : String) × ((create_container "alice" "web" "docker.io/nginx:1").mechanism
      ≡ command "sudo" ("runuser" ∷ "-l" ∷ "alice" ∷ "-c" ∷ script ∷ []))
    × (split b'\'' (codes script)
        ≡ codes "podman create --name "
          ∷ codes "web"
          ∷ codes " "
          ∷ codes "docker.io/nginx:1"
          ∷ []
          ∷ [])
create_container_quoted_example =
    create_container_quoted "alice" "web" "web" "docker.io/nginx:1" "docker.io/nginx:1"
      name_accepted image_accepted

-- argument lists and scripts with optional parts
user_with_shell :
    (create_user "bob" (some "/bin/sh") none).mechanism
    ≡ command "sudo" ("useradd" ∷ "--create-home" ∷ "--shell" ∷ "/bin/sh" ∷ "bob" ∷ [])
user_with_shell = refl

toolbox_with_release :
    (create_toolbox "bob" "dev" (some "41") none).mechanism
    ≡ command "sudo" (
        "runuser" ∷ "-l" ∷ "bob" ∷ "-c"
        ∷ "XDG_RUNTIME_DIR=/run/user/$(id -u) toolbox create --container 'dev' --release '41'" ∷ [])
toolbox_with_release = refl

snap_held :
    (snap_install "code" none false).mechanism
    ≡ command "sudo"
        ("sh" ∷ "-c" ∷ "snap install --channel=stable code && snap refresh --hold code" ∷ [])
snap_held = refl

kernel_arguments :
    (set_kernel_arguments ("quiet" ∷ []) ("splash" ∷ [])).mechanism
    ≡ command "sudo" ("rpm-ostree" ∷ "kargs" ∷ "--append=quiet" ∷ "--delete=splash" ∷ [])
kernel_arguments = refl

largest_index :
    (pin_deployment 4294967295).mechanism
    ≡ command "sudo" ("ostree" ∷ "admin" ∷ "pin" ∷ "4294967295" ∷ [])
unfolding u32_to_string
largest_index = refl
