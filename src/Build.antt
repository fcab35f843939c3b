-- ===== src/Build.antt =====
-- crates/sysknife-daemon/src/executor.rs: `build_action_spec` and `rollback_spec_for`.
pub mod Ostree
pub mod Userland
pub mod Host
pub mod Users
pub mod Packages
pub mod Ubuntu
pub mod Hardening
pub mod Sound
pub mod Catalogue
pub mod Guarded
use lacs.Prelude.{
  String, Bool, true, false, Option, none, some, List, [], ◌∷◌, ◌++◌, str_eq, contains,
  if◌then◌else◌,
}
use lacs.Json.{Value}
use lacs.Types.{high}
use lacs.Executor.{ActionSpec, command, Result, ok, err, unknown_action}
use lacs.Params.{Std, Arm}
use lacs.Build.Ostree.{deployment_arms, layering_arms, repository_arms}
use lacs.Build.Userland.{flatpak_arms, container_arms, toolbox_arms}
use lacs.Build.Host.{service_arms, identity_arms, network_arms}
use lacs.Build.Users.{user_arms, ssh_arms}
use lacs.Build.Packages.{apt_arms, ppa_arms, snap_arms}
use lacs.Build.Ubuntu.{grub_arms, ufw_arms, distrobox_arms, ufw_tier3_arms, pro_arms}
use lacs.Build.Hardening.{resolvectl_arms, apparmor_arms, ubuntu_flatpak_arms, fail2ban_arms}

-- The first arm with the name, or the last arm of the `match`.
unfoldable pub dispatch : List Arm → String → Value → Result ActionSpec
dispatch [] action_name params = err (unknown_action action_name)
dispatch ((name, arm) ∷ arms) action_name params =
    let rest = dispatch arms action_name params in
    if str_eq name action_name then arm params else rest

-- The arms of the `match` in the order of the source.
unfoldable pub arms : Std → List Arm
arms std =
    deployment_arms std
    ++ (flatpak_arms
        ++ (container_arms
            ++ (layering_arms
                ++ (repository_arms
                    ++ (service_arms
                        ++ (toolbox_arms
                            ++ (identity_arms
                                ++ (network_arms
                                    ++ (user_arms
                                        ++ (ssh_arms
                                            ++ (apt_arms
                                                ++ (ppa_arms
                                                    ++ (snap_arms
                                                        ++ (grub_arms
                                                            ++ (ufw_arms
                                                            ++ (distrobox_arms
                                                            ++ (ufw_tier3_arms
                                                            ++ (pro_arms
                                                            ++ (resolvectl_arms std
                                                            ++ (apparmor_arms
                                                            ++ (ubuntu_flatpak_arms
                                                            ++ fail2ban_arms
                                                            std)))))))))))))))))))))

unfoldable pub build_action_spec : Std → String → Value → Result ActionSpec
unfolding dispatch arms
build_action_spec std = dispatch (arms std)

abbrev pub rollback_names : List String
rollback_names =
    "UpdateSystem" ∷ "InstallPackages" ∷ "RemovePackages" ∷ "RebaseSystem" ∷ "SetKernelArguments"
    ∷ "AddLayeredPackage" ∷ "RemoveLayeredPackage" ∷ "ReplaceLayeredPackage"
    ∷ "ResetLayeredPackageOverride" ∷ "RemoveBasePackage" ∷ []

unfoldable pub rollback_spec_for : String → Option ActionSpec
rollback_spec_for action_name =
    if contains rollback_names action_name
    then some (record {
      action_name = "RollbackDeployment";
      mechanism = command "rpm-ostree" ("rollback" ∷ []);
      risk_level = high;
      reboot_required = true;
      rollback_available = false;
    })
    else none
