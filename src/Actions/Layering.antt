-- ===== src/Actions/Layering.antt =====
-- crates/sysknife-daemon/src/actions: layering.rs and package_repos.rs. A constructor gives what an
-- action runs, its risk and its flags.
use lacs.Prelude.{String, true, false, List, [], ◌∷◌}
use lacs.Types.{low, medium, high}
use lacs.Executor.{file_scan, file_write, file_patch, file_delete, ActionSpec}
use lacs.Actions.{command_mechanism, concat}

abbrev pub install_packages : List String → ActionSpec
install_packages packages = record {
  action_name = "InstallPackages";
  mechanism = command_mechanism "sudo" ("rpm-ostree" ∷ "install" ∷ "--idempotent" ∷ packages);
  risk_level = high;
  reboot_required = true;
  rollback_available = true;
}

abbrev pub remove_packages : List String → ActionSpec
remove_packages packages = record {
  action_name = "RemovePackages";
  mechanism = command_mechanism "sudo" ("rpm-ostree" ∷ "uninstall" ∷ packages);
  risk_level = high;
  reboot_required = true;
  rollback_available = true;
}

abbrev pub get_layered_packages : ActionSpec
get_layered_packages = record {
  action_name = "GetLayeredPackages";
  mechanism = command_mechanism "rpm-ostree" ("status" ∷ "--json" ∷ []);
  risk_level = low;
  reboot_required = false;
  rollback_available = false;
}

abbrev pub add_layered_package : String → ActionSpec
add_layered_package pkg = record {
  action_name = "AddLayeredPackage";
  mechanism = command_mechanism "sudo" ("rpm-ostree" ∷ "install" ∷ "--idempotent" ∷ pkg ∷ []);
  risk_level = high;
  reboot_required = true;
  rollback_available = true;
}

abbrev pub remove_layered_package : String → ActionSpec
remove_layered_package pkg = record {
  action_name = "RemoveLayeredPackage";
  mechanism = command_mechanism "sudo" ("rpm-ostree" ∷ "uninstall" ∷ pkg ∷ []);
  risk_level = high;
  reboot_required = true;
  rollback_available = true;
}

abbrev pub replace_layered_package : String → String → ActionSpec
replace_layered_package old new = record {
  action_name = "ReplaceLayeredPackage";
  mechanism = command_mechanism "sudo" ("rpm-ostree" ∷ "install" ∷ new ∷ "--uninstall" ∷ old ∷ []);
  risk_level = high;
  reboot_required = true;
  rollback_available = true;
}

abbrev pub remove_base_package : String → ActionSpec
remove_base_package pkg = record {
  action_name = "RemoveBasePackage";
  mechanism = command_mechanism "sudo" ("rpm-ostree" ∷ "override" ∷ "remove" ∷ pkg ∷ []);
  risk_level = high;
  reboot_required = true;
  rollback_available = true;
}

abbrev pub get_pending_updates : ActionSpec
get_pending_updates = record {
  action_name = "GetPendingUpdates";
  mechanism = command_mechanism "rpm-ostree" ("upgrade" ∷ "--check" ∷ []);
  risk_level = low;
  reboot_required = false;
  rollback_available = false;
}

abbrev pub reset_layered_package_override : ActionSpec
reset_layered_package_override = record {
  action_name = "ResetLayeredPackageOverride";
  mechanism = command_mechanism "sudo" ("rpm-ostree" ∷ "override" ∷ "reset" ∷ "--all" ∷ []);
  risk_level = high;
  reboot_required = true;
  rollback_available = true;
}

abbrev pub list_package_repositories : ActionSpec
list_package_repositories = record {
  action_name = "ListPackageRepositories";
  mechanism = file_scan "/etc/yum.repos.d";
  risk_level = low;
  reboot_required = false;
  rollback_available = false;
}

abbrev pub add_package_repository : String → String → ActionSpec
add_package_repository repo_id repo_url = record {
  action_name = "AddPackageRepository";
  mechanism =
      file_write (concat ("/etc/yum.repos.d/" ∷ repo_id ∷ ".repo" ∷ []))
        (concat ("[" ∷ repo_id ∷ "]\nbaseurl=" ∷ repo_url ∷ "\nenabled=1\n" ∷ []));
  risk_level = high;
  reboot_required = false;
  rollback_available = false;
}

abbrev pub remove_package_repository : String → ActionSpec
remove_package_repository repo_id = record {
  action_name = "RemovePackageRepository";
  mechanism = file_delete (concat ("/etc/yum.repos.d/" ∷ repo_id ∷ ".repo" ∷ []));
  risk_level = medium;
  reboot_required = false;
  rollback_available = false;
}

abbrev pub enable_package_repository : String → ActionSpec
enable_package_repository repo_id = record {
  action_name = "EnablePackageRepository";
  mechanism =
      file_patch (concat ("/etc/yum.repos.d/" ∷ repo_id ∷ ".repo" ∷ [])) "enabled=0" "enabled=1";
  risk_level = medium;
  reboot_required = false;
  rollback_available = false;
}

abbrev pub disable_package_repository : String → ActionSpec
disable_package_repository repo_id = record {
  action_name = "DisablePackageRepository";
  mechanism =
      file_patch (concat ("/etc/yum.repos.d/" ∷ repo_id ∷ ".repo" ∷ [])) "enabled=1" "enabled=0";
  risk_level = medium;
  reboot_required = false;
  rollback_available = false;
}
