-- ===== src/Build/Ubuntu.antt =====
-- crates/sysknife-daemon/src/executor.rs: arms of the `match` in `build_action_spec`, each a name
-- with what it does with the parameters, in the order of the source.
use lacs.Prelude.{List, [], ◌∷◌}
use lacs.Executor.{ok, missing_param, invalid_param, ◌>>=◌, ◌>>◌}
use lacs.Validate.{validated_port_or_service, validated_safe_arg}
use lacs.Params.{
  require_str, require_positive_u32, strings_or_default, validated_each, Arm, map_err,
}
use lacs.Actions.Containers.{distrobox_create, distrobox_list, distrobox_remove}
use lacs.Actions.Firewall.{
  ufw_allow, ufw_delete_rule, ufw_deny, ufw_disable, ufw_enable, ufw_limit, ufw_reset, ufw_status,
}
use lacs.Actions.Kernel.{grub_get_kargs, grub_set_kargs}
use lacs.Actions.Monitor.{
  check_pending_reboot, livepatch_status, multipass_list, ubuntu_release_upgrade,
}
use lacs.Actions.Network.{netplan_apply, netplan_generate, netplan_get_config, netplan_set}
use lacs.Actions.Snap.{pro_attach, pro_detach, pro_status}

unfoldable pub grub_arms : List Arm
grub_arms =
    ("GrubGetKargs", λ params. ok grub_get_kargs)
    ∷ (
      "GrubSetKargs",
      λ params. do
        let append = strings_or_default params "append"
        let delete = strings_or_default params "delete"
        validated_each (λ a. validated_safe_arg a "append") append
        validated_each (λ d. validated_safe_arg d "delete") delete
        map_err (λ e. missing_param "append or delete") (grub_set_kargs append delete),
    )
    ∷ ("CheckPendingReboot", λ params. ok check_pending_reboot)
    ∷ []

unfoldable pub ufw_arms : List Arm
ufw_arms =
    ("UfwEnable", λ params. ok ufw_enable)
    ∷ ("UfwDisable", λ params. ok ufw_disable)
    ∷ (
      "UfwAllow",
      λ params. do
        port_or_service ←
            validated_port_or_service (← require_str params "port_or_service") "port_or_service"
        ok (ufw_allow port_or_service),
    )
    ∷ (
      "UfwDeny",
      λ params. do
        port_or_service ←
            validated_port_or_service (← require_str params "port_or_service") "port_or_service"
        ok (ufw_deny port_or_service),
    )
    ∷ ("UfwReset", λ params. ok ufw_reset)
    ∷ ("UfwStatus", λ params. ok ufw_status)
    ∷ []

unfoldable pub distrobox_arms : List Arm
distrobox_arms =
    ("DistroboxList", λ params. ok distrobox_list)
    ∷ (
      "DistroboxCreate",
      λ params. do
        name ← validated_safe_arg (← require_str params "name") "name"
        image ← validated_safe_arg (← require_str params "image") "image"
        ok (distrobox_create name image),
    )
    ∷ (
      "DistroboxRemove",
      λ params. do
        name ← validated_safe_arg (← require_str params "name") "name"
        ok (distrobox_remove name),
    )
    ∷ ("NetplanGetConfig", λ params. ok netplan_get_config)
    ∷ ("NetplanApply", λ params. ok netplan_apply)
    ∷ (
      "NetplanSet",
      λ params. do
        key ← validated_safe_arg (← require_str params "key") "key"
        value ← validated_safe_arg (← require_str params "value") "value"
        ok (netplan_set key value),
    )
    ∷ ("NetplanGenerate", λ params. ok netplan_generate)
    ∷ []

unfoldable pub ufw_tier3_arms : List Arm
ufw_tier3_arms =
    (
      "UfwDeleteRule",
      λ params. do
        rule_number ← require_positive_u32 params "rule_number"
        map_err (λ e. invalid_param "rule_number") (ufw_delete_rule rule_number),
    )
    ∷ (
      "UfwLimit",
      λ params. do
        target ← validated_port_or_service (← require_str params "target") "target"
        ok (ufw_limit target),
    )
    ∷ []

unfoldable pub pro_arms : List Arm
pro_arms =
    ("ProStatus", λ params. ok pro_status)
    ∷ (
      "ProAttach",
      λ params. do
        token ← require_str params "token"
        token ← validated_safe_arg token "token"
        ok (pro_attach token),
    )
    ∷ ("ProDetach", λ params. ok pro_detach)
    ∷ ("LivepatchStatus", λ params. ok livepatch_status)
    ∷ ("MultipassList", λ params. ok multipass_list)
    ∷ ("UbuntuReleaseUpgrade", λ params. ok ubuntu_release_upgrade)
    ∷ []
