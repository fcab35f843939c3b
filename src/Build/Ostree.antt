-- ===== src/Build/Ostree.antt =====
-- crates/sysknife-daemon/src/executor.rs: arms of the `match` in `build_action_spec`, each a name
-- with what it does with the parameters, in the order of the source.
use lacs.Prelude.{List, [], ◌∷◌}
use lacs.Executor.{ok, ◌>>=◌, ◌>>◌}
use lacs.Validate.{validated_safe_arg}
use lacs.Params.{
  Std, require_str, validated_repo_id, validated_no_newline, require_u32, str_array_or_empty,
  validated_each, validated_safe_kernel_arg, Arm,
}
use lacs.Actions.Deployment.{
  cleanup_deployments, collect_diagnostics, get_deployment_history, get_kernel_arguments,
  get_system_state, list_deployments, pin_deployment, rebase_system, reboot_system,
  rollback_deployment, set_kernel_arguments, unpin_deployment, update_system,
}
use lacs.Actions.Layering.{
  add_layered_package, add_package_repository, disable_package_repository,
  enable_package_repository, get_layered_packages, get_pending_updates, install_packages,
  list_package_repositories, remove_base_package, remove_layered_package, remove_package_repository,
  remove_packages, replace_layered_package, reset_layered_package_override,
}

unfoldable pub deployment_arms : Std → List Arm
deployment_arms std =
    ("GetSystemState", λ params. ok get_system_state)
    ∷ ("CollectDiagnostics", λ params. ok collect_diagnostics)
    ∷ ("GetDeploymentHistory", λ params. ok get_deployment_history)
    ∷ ("ListDeployments", λ params. ok list_deployments)
    ∷ ("UpdateSystem", λ params. ok update_system)
    ∷ ("CleanupDeployments", λ params. ok cleanup_deployments)
    ∷ ("RebootSystem", λ params. ok reboot_system)
    ∷ ("RollbackDeployment", λ params. ok rollback_deployment)
    ∷ ("GetKernelArguments", λ params. ok get_kernel_arguments)
    ∷ ("PinDeployment", λ params. do ok (pin_deployment (← require_u32 params "index")))
    ∷ ("UnpinDeployment", λ params. do ok (unpin_deployment (← require_u32 params "index")))
    ∷ (
      "RebaseSystem",
      λ params. do
        target_ref ← require_str params "target_ref"
        target_ref ← validated_safe_arg target_ref "target_ref"
        ok (rebase_system target_ref),
    )
    ∷ (
      "SetKernelArguments",
      λ params. do
        add ← str_array_or_empty params "add"
        remove ← str_array_or_empty params "remove"
        validated_each (validated_safe_kernel_arg std) add
        ok (set_kernel_arguments add remove),
    )
    ∷ []

unfoldable pub layering_arms : List Arm
layering_arms =
    ("GetLayeredPackages", λ params. ok get_layered_packages)
    ∷ ("ResetLayeredPackageOverride", λ params. ok reset_layered_package_override)
    ∷ (
      "InstallPackages",
      λ params. do
        pkgs ← str_array_or_empty params "packages"
        validated ← validated_each (λ s. validated_safe_arg s "packages") pkgs
        ok (install_packages validated),
    )
    ∷ (
      "RemovePackages",
      λ params. do
        pkgs ← str_array_or_empty params "packages"
        validated ← validated_each (λ s. validated_safe_arg s "packages") pkgs
        ok (remove_packages validated),
    )
    ∷ (
      "AddLayeredPackage",
      λ params. do
        pkg ← validated_safe_arg (← require_str params "package") "package"
        ok (add_layered_package pkg),
    )
    ∷ (
      "RemoveLayeredPackage",
      λ params. do
        pkg ← validated_safe_arg (← require_str params "package") "package"
        ok (remove_layered_package pkg),
    )
    ∷ (
      "ReplaceLayeredPackage",
      λ params. do
        old ← validated_safe_arg (← require_str params "old") "old"
        new ← validated_safe_arg (← require_str params "new") "new"
        ok (replace_layered_package old new),
    )
    ∷ (
      "RemoveBasePackage",
      λ params. do
        pkg ← validated_safe_arg (← require_str params "package") "package"
        ok (remove_base_package pkg),
    )
    ∷ ("GetPendingUpdates", λ params. ok get_pending_updates)
    ∷ []

unfoldable pub repository_arms : List Arm
repository_arms =
    ("ListPackageRepositories", λ params. ok list_package_repositories)
    ∷ (
      "AddPackageRepository",
      λ params. do
        ok (
            add_package_repository (← validated_repo_id params)
              (← validated_no_newline params "repo_url")),
    )
    ∷ (
      "RemovePackageRepository",
      λ params. do ok (remove_package_repository (← validated_repo_id params)),
    )
    ∷ (
      "EnablePackageRepository",
      λ params. do ok (enable_package_repository (← validated_repo_id params)),
    )
    ∷ (
      "DisablePackageRepository",
      λ params. do ok (disable_package_repository (← validated_repo_id params)),
    )
    ∷ []
