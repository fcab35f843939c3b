-- ===== src/Build/Hardening.antt =====
-- crates/sysknife-daemon/src/executor.rs: arms of the `match` in `build_action_spec`, each a name
-- with what it does with the parameters, in the order of the source.
use lacs.Prelude.{List, [], ◌∷◌}
use lacs.Executor.{ok, missing_param, invalid_param, ◌>>=◌, ◌>>◌}
use lacs.Validate.{validated_username, validated_apparmor_profile, validated_safe_arg}
use lacs.Params.{
  Std, require_str, resolve_username, strings_or_default, validated_each, nonempty_str,
  validated_optional, Arm, map_err, guard_nonempty, parse_ip,
}
use lacs.Actions.Firewall.{fail2ban_ban_ip, fail2ban_status, fail2ban_unban_ip}
use lacs.Actions.Flatpak.{
  ubuntu_install_flatpak, ubuntu_list_flatpaks, ubuntu_remove_flatpak, ubuntu_update_flatpak,
}
use lacs.Actions.Kernel.{apparmor_complain, apparmor_enforce, apparmor_status}
use lacs.Actions.Monitor.{cloud_init_status}
use lacs.Actions.Network.{resolvectl_set_dns, resolvectl_status}
use lacs.Actions.Firewall.{Fail2banError, invalid_ip_address, invalid_jail}
use lacs.Executor.{ExecutorError}

-- The closure given to `map_err` for the errors of fail2ban.
abbrev pub fail2ban_error : Fail2banError → ExecutorError
fail2ban_error (invalid_ip_address v) = ExecutorError.invalid_ip_address "ip" v
fail2ban_error (invalid_jail _) = invalid_param "jail"

unfoldable pub resolvectl_arms : Std → List Arm
resolvectl_arms std =
    ("ResolvectlStatus", λ params. ok resolvectl_status)
    ∷ (
      "ResolvectlSetDns",
      λ params. do
        interface ← validated_safe_arg (← require_str params "interface") "interface"
        let raw_servers = strings_or_default params "servers"
        guard_nonempty raw_servers (missing_param "servers")
        parsed_servers ← validated_each (parse_ip std "servers") raw_servers
        ok (resolvectl_set_dns interface parsed_servers),
    )
    ∷ []

unfoldable pub apparmor_arms : List Arm
apparmor_arms =
    ("AppArmorStatus", λ params. ok apparmor_status)
    ∷ (
      "AppArmorEnforce",
      λ params. do
        profile_path ←
            validated_apparmor_profile (← require_str params "profile_path") "profile_path"
        ok (apparmor_enforce profile_path),
    )
    ∷ (
      "AppArmorComplain",
      λ params. do
        profile_path ←
            validated_apparmor_profile (← require_str params "profile_path") "profile_path"
        ok (apparmor_complain profile_path),
    )
    ∷ ("CloudInitStatus", λ params. ok cloud_init_status)
    ∷ []

unfoldable pub ubuntu_flatpak_arms : List Arm
ubuntu_flatpak_arms =
    (
      "UbuntuInstallFlatpak",
      λ params. do
        username ← validated_username (← resolve_username params) "username"
        app_id ← validated_safe_arg (← require_str params "app_id") "app_id"
        remote ← validated_safe_arg (← require_str params "remote") "remote"
        ok (ubuntu_install_flatpak username app_id remote),
    )
    ∷ (
      "UbuntuRemoveFlatpak",
      λ params. do
        username ← validated_username (← resolve_username params) "username"
        app_id ← validated_safe_arg (← require_str params "app_id") "app_id"
        ok (ubuntu_remove_flatpak username app_id),
    )
    ∷ (
      "UbuntuUpdateFlatpak",
      λ params. do
        username ← validated_username (← resolve_username params) "username"
        app_id ←
            validated_optional (λ s. validated_safe_arg s "app_id") (nonempty_str params "app_id")
        ok (ubuntu_update_flatpak username app_id),
    )
    ∷ (
      "UbuntuListFlatpaks",
      λ params. do
        username ← validated_username (← resolve_username params) "username"
        ok (ubuntu_list_flatpaks username),
    )
    ∷ []

unfoldable pub fail2ban_arms : Std → List Arm
fail2ban_arms std =
    (
      "Fail2banStatus",
      λ params. do
        jail ← validated_optional (λ s. validated_safe_arg s "jail") (nonempty_str params "jail")
        ok (fail2ban_status jail),
    )
    ∷ (
      "Fail2banBanIp",
      λ params. do
        jail ← validated_safe_arg (← require_str params "jail") "jail"
        ip ← require_str params "ip"
        map_err fail2ban_error (fail2ban_ban_ip std jail ip),
    )
    ∷ (
      "Fail2banUnbanIp",
      λ params. do
        jail ← validated_safe_arg (← require_str params "jail") "jail"
        ip ← require_str params "ip"
        map_err fail2ban_error (fail2ban_unban_ip std jail ip),
    )
    ∷ []
