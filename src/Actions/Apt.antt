-- ===== src/Actions/Apt.antt =====
-- crates/sysknife-daemon/src/actions: apt.rs and ppa.rs. A constructor gives what an action runs,
-- its risk and its flags.
use lacs.Prelude.{String, true, false, [], ◌∷◌}
use lacs.Types.{low, medium, high}
use lacs.Executor.{ActionSpec}
use lacs.Actions.{command_mechanism, concat}

abbrev apt_get : String
apt_get = "apt-get"

abbrev debian_frontend_value : String
debian_frontend_value = "DEBIAN_FRONTEND=noninteractive"

abbrev needrestart_mode_value : String
needrestart_mode_value = "NEEDRESTART_MODE=a"

abbrev pub apt_update : ActionSpec
apt_update = record {
  action_name = "AptUpdate";
  mechanism =
      command_mechanism "sudo"
        ("env" ∷ debian_frontend_value ∷ needrestart_mode_value ∷ apt_get ∷ "update" ∷ []);
  risk_level = low;
  reboot_required = false;
  rollback_available = false;
}

abbrev pub apt_upgrade : ActionSpec
apt_upgrade = record {
  action_name = "AptUpgrade";
  mechanism = command_mechanism "sudo" (
      "env" ∷ debian_frontend_value ∷ needrestart_mode_value ∷ apt_get ∷ "dist-upgrade" ∷ "-y"
      ∷ []);
  risk_level = high;
  reboot_required = false;
  rollback_available = false;
}

abbrev pub apt_install : String → ActionSpec
apt_install pkg = record {
  action_name = "AptInstall";
  mechanism = command_mechanism "sudo" (
      "env" ∷ debian_frontend_value ∷ needrestart_mode_value ∷ apt_get ∷ "install" ∷ "-y" ∷ pkg
      ∷ []);
  risk_level = medium;
  reboot_required = false;
  rollback_available = false;
}

abbrev pub apt_remove : String → ActionSpec
apt_remove pkg = record {
  action_name = "AptRemove";
  mechanism = command_mechanism "sudo" (
      "env" ∷ debian_frontend_value ∷ needrestart_mode_value ∷ apt_get ∷ "remove" ∷ "-y" ∷ pkg
      ∷ []);
  risk_level = medium;
  reboot_required = false;
  rollback_available = false;
}

abbrev pub apt_purge : String → ActionSpec
apt_purge pkg = record {
  action_name = "AptPurge";
  mechanism = command_mechanism "sudo" (
      "env" ∷ debian_frontend_value ∷ needrestart_mode_value ∷ apt_get ∷ "purge" ∷ "-y" ∷ pkg ∷ []);
  risk_level = medium;
  reboot_required = false;
  rollback_available = false;
}

abbrev pub apt_autoremove : ActionSpec
apt_autoremove = record {
  action_name = "AptAutoremove";
  mechanism =
      command_mechanism "sudo" (
        "env" ∷ debian_frontend_value ∷ needrestart_mode_value ∷ apt_get ∷ "autoremove" ∷ "-y"
        ∷ []);
  risk_level = low;
  reboot_required = false;
  rollback_available = false;
}

abbrev pub apt_hold : String → ActionSpec
apt_hold pkg = record {
  action_name = "AptHold";
  mechanism = command_mechanism "sudo" ("apt-mark" ∷ "hold" ∷ pkg ∷ []);
  risk_level = medium;
  reboot_required = false;
  rollback_available = false;
}

abbrev pub apt_unhold : String → ActionSpec
apt_unhold pkg = record {
  action_name = "AptUnhold";
  mechanism = command_mechanism "sudo" ("apt-mark" ∷ "unhold" ∷ pkg ∷ []);
  risk_level = medium;
  reboot_required = false;
  rollback_available = false;
}

abbrev pub apt_search : String → ActionSpec
apt_search term = record {
  action_name = "AptSearch";
  mechanism = command_mechanism "apt-cache" ("search" ∷ term ∷ []);
  risk_level = low;
  reboot_required = false;
  rollback_available = false;
}

abbrev pub apt_list_installed : ActionSpec
apt_list_installed = record {
  action_name = "AptListInstalled";
  mechanism = command_mechanism "dpkg" ("-l" ∷ []);
  risk_level = low;
  reboot_required = false;
  rollback_available = false;
}

abbrev pub apt_show : String → ActionSpec
apt_show pkg = record {
  action_name = "AptShow";
  mechanism = command_mechanism "apt-cache" ("show" ∷ pkg ∷ []);
  risk_level = low;
  reboot_required = false;
  rollback_available = false;
}

abbrev pub apt_list_upgradable : ActionSpec
apt_list_upgradable = record {
  action_name = "AptListUpgradable";
  mechanism = command_mechanism "bash" ("-c" ∷ "apt list --upgradable 2>/dev/null" ∷ []);
  risk_level = low;
  reboot_required = false;
  rollback_available = false;
}

abbrev pub apt_history_list : ActionSpec
apt_history_list = record {
  action_name = "AptHistoryList";
  mechanism =
      command_mechanism "bash"
        ("-c" ∷ "grep -A 4 '^Start-Date' /var/log/apt/history.log | tail -n 80" ∷ []);
  risk_level = low;
  reboot_required = false;
  rollback_available = false;
}

abbrev add_apt_repository : String
add_apt_repository = "add-apt-repository"

abbrev yes_flag : String
yes_flag = "-y"

abbrev remove_flag : String
remove_flag = "--remove"

abbrev ppa_arg : String → String
ppa_arg name = concat ("ppa:" ∷ name ∷ [])

abbrev pub add_ppa : String → ActionSpec
add_ppa name = record {
  action_name = "AddPpa";
  mechanism = command_mechanism "sudo" (add_apt_repository ∷ yes_flag ∷ (ppa_arg name) ∷ []);
  risk_level = medium;
  reboot_required = false;
  rollback_available = true;
}

abbrev pub remove_ppa : String → ActionSpec
remove_ppa name = record {
  action_name = "RemovePpa";
  mechanism =
      command_mechanism "sudo" (add_apt_repository ∷ yes_flag ∷ remove_flag ∷ (ppa_arg name) ∷ []);
  risk_level = medium;
  reboot_required = false;
  rollback_available = true;
}
