-- ===== src/Actions/Flatpak.antt =====
-- crates/sysknife-daemon/src/actions: flatpak.rs. A constructor gives what an action runs, its risk
-- and its flags.
use lacs.Prelude.{String, false, Option, none, some, List, [], ◌∷◌}
use lacs.Types.{low, medium}
use lacs.Executor.{ActionMechanism, command, ActionSpec}
use lacs.Actions.{command_mechanism}

abbrev flatpak_as : String → List String → ActionMechanism
flatpak_as username args = command "sudo" ("runuser" ∷ "-u" ∷ username ∷ "--" ∷ "flatpak" ∷ args)

abbrev pub install_flatpak : String → String → String → ActionSpec
install_flatpak username app_id remote = record {
  action_name = "InstallFlatpak";
  mechanism = flatpak_as username ("install" ∷ "--user" ∷ "-y" ∷ remote ∷ app_id ∷ []);
  risk_level = medium;
  reboot_required = false;
  rollback_available = false;
}

abbrev pub remove_flatpak : String → String → ActionSpec
remove_flatpak username app_id = record {
  action_name = "RemoveFlatpak";
  mechanism = flatpak_as username ("uninstall" ∷ "--user" ∷ "-y" ∷ app_id ∷ []);
  risk_level = medium;
  reboot_required = false;
  rollback_available = false;
}

abbrev pub search_flatpak_apps : String → ActionSpec
search_flatpak_apps term = record {
  action_name = "SearchFlatpakApps";
  mechanism = command_mechanism "flatpak" ("search" ∷ term ∷ []);
  risk_level = low;
  reboot_required = false;
  rollback_available = false;
}

abbrev pub list_flatpak_remotes : String → ActionSpec
list_flatpak_remotes username = record {
  action_name = "ListFlatpakRemotes";
  mechanism = flatpak_as username ("remotes" ∷ "--user" ∷ "--columns=name,url" ∷ []);
  risk_level = low;
  reboot_required = false;
  rollback_available = false;
}

abbrev pub add_flatpak_remote : String → String → String → ActionSpec
add_flatpak_remote username remote url = record {
  action_name = "AddFlatpakRemote";
  mechanism = flatpak_as username ("remote-add" ∷ "--user" ∷ "--if-not-exists" ∷ remote ∷ url ∷ []);
  risk_level = medium;
  reboot_required = false;
  rollback_available = false;
}

abbrev pub remove_flatpak_remote : String → String → ActionSpec
remove_flatpak_remote username remote = record {
  action_name = "RemoveFlatpakRemote";
  mechanism = flatpak_as username ("remote-delete" ∷ "--user" ∷ remote ∷ []);
  risk_level = medium;
  reboot_required = false;
  rollback_available = false;
}

abbrev pub list_installed_flatpaks : String → ActionSpec
list_installed_flatpaks username = record {
  action_name = "ListInstalledFlatpaks";
  mechanism =
      flatpak_as username
        ("list" ∷ "--user" ∷ "--app" ∷ "--columns=application,name,version,origin" ∷ []);
  risk_level = low;
  reboot_required = false;
  rollback_available = false;
}

abbrev pub update_flatpak : String → Option String → ActionSpec
update_flatpak username app_id = record {
  action_name = "UpdateFlatpak";
  mechanism = elim app_id [
    | some id ↦ flatpak_as username ("update" ∷ "--user" ∷ "-y" ∷ id ∷ [])
    | none ↦ flatpak_as username ("update" ∷ "--user" ∷ "-y" ∷ [])
  ];
  risk_level = medium;
  reboot_required = false;
  rollback_available = false;
}

abbrev pub get_flatpak_app_info : String → String → ActionSpec
get_flatpak_app_info username app_id = record {
  action_name = "GetFlatpakAppInfo";
  mechanism = flatpak_as username ("info" ∷ "--user" ∷ app_id ∷ []);
  risk_level = low;
  reboot_required = false;
  rollback_available = false;
}

abbrev pub ubuntu_install_flatpak : String → String → String → ActionSpec
ubuntu_install_flatpak username app_id remote = record {
  action_name = "UbuntuInstallFlatpak";
  mechanism = flatpak_as username ("install" ∷ "--user" ∷ "-y" ∷ remote ∷ app_id ∷ []);
  risk_level = medium;
  reboot_required = false;
  rollback_available = false;
}

abbrev pub ubuntu_remove_flatpak : String → String → ActionSpec
ubuntu_remove_flatpak username app_id = record {
  action_name = "UbuntuRemoveFlatpak";
  mechanism = flatpak_as username ("uninstall" ∷ "--user" ∷ "-y" ∷ app_id ∷ []);
  risk_level = medium;
  reboot_required = false;
  rollback_available = false;
}

abbrev pub ubuntu_update_flatpak : String → Option String → ActionSpec
ubuntu_update_flatpak username app_id = record {
  action_name = "UbuntuUpdateFlatpak";
  mechanism = elim app_id [
    | some id ↦ flatpak_as username ("update" ∷ "--user" ∷ "-y" ∷ id ∷ [])
    | none ↦ flatpak_as username ("update" ∷ "--user" ∷ "-y" ∷ [])
  ];
  risk_level = medium;
  reboot_required = false;
  rollback_available = false;
}

abbrev pub ubuntu_list_flatpaks : String → ActionSpec
ubuntu_list_flatpaks username = record {
  action_name = "UbuntuListFlatpaks";
  mechanism =
      flatpak_as username
        ("list" ∷ "--user" ∷ "--app" ∷ "--columns=application,name,version,origin" ∷ []);
  risk_level = low;
  reboot_required = false;
  rollback_available = false;
}
