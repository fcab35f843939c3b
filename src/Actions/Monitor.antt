-- ===== src/Actions/Monitor.antt =====
-- crates/sysknife-daemon/src/actions: filesystem.rs, processes.rs, system_info.rs, livepatch.rs,
-- multipass.rs, cloudinit.rs, reboot.rs and release_upgrade.rs. A constructor gives what an action
-- runs, its risk and its flags.
use lacs.Prelude.{String, true, false, [], ◌∷◌}
use lacs.Types.{low, high}
use lacs.Executor.{ActionSpec}
use lacs.Actions.{command_mechanism, concat}

abbrev pub disk_usage_spec : ActionSpec
disk_usage_spec = record {
  action_name = "GetDiskUsage";
  mechanism = command_mechanism "df" (
      "-h" ∷ "--output=source,fstype,size,used,avail,pcent,target" ∷ "--exclude-type=composefs"
      ∷ "--exclude-type=tmpfs" ∷ "--exclude-type=devtmpfs" ∷ "--exclude-type=efivarfs" ∷ []);
  risk_level = low;
  reboot_required = false;
  rollback_available = false;
}

abbrev pub list_processes_spec : ActionSpec
list_processes_spec = record {
  action_name = "ListProcesses";
  mechanism = command_mechanism "ps" ("aux" ∷ "--sort=-%mem" ∷ []);
  risk_level = low;
  reboot_required = false;
  rollback_available = false;
}

abbrev pub get_memory_info_spec : ActionSpec
get_memory_info_spec = record {
  action_name = "GetMemoryInfo";
  mechanism = command_mechanism "free" ("-h" ∷ []);
  risk_level = low;
  reboot_required = false;
  rollback_available = false;
}

abbrev pub livepatch_status : ActionSpec
livepatch_status = record {
  action_name = "LivepatchStatus";
  mechanism = command_mechanism "sudo" ("canonical-livepatch" ∷ "status" ∷ "--verbose" ∷ []);
  risk_level = low;
  reboot_required = false;
  rollback_available = false;
}

abbrev pub multipass_list : ActionSpec
multipass_list = record {
  action_name = "MultipassList";
  mechanism = command_mechanism "multipass" ("list" ∷ []);
  risk_level = low;
  reboot_required = false;
  rollback_available = false;
}

abbrev pub cloud_init_status : ActionSpec
cloud_init_status = record {
  action_name = "CloudInitStatus";
  mechanism = command_mechanism "cloud-init" ("status" ∷ "--long" ∷ []);
  risk_level = low;
  reboot_required = false;
  rollback_available = false;
}

abbrev reboot_required_file : String
reboot_required_file = "/var/run/reboot-required"

abbrev reboot_required_pkgs_file : String
reboot_required_pkgs_file = "/var/run/reboot-required-pkgs"

abbrev pub check_pending_reboot : ActionSpec
check_pending_reboot = record {
  action_name = "CheckPendingReboot";
  mechanism = command_mechanism "bash" (
      "-c"
      ∷ (concat (
          "if test -f " ∷ reboot_required_file ∷ "; then cat " ∷ reboot_required_file ∷ "; cat "
          ∷ reboot_required_pkgs_file ∷ " 2>/dev/null; else echo 'No reboot required.'; fi" ∷ []))
      ∷ []);
  risk_level = low;
  reboot_required = false;
  rollback_available = false;
}

abbrev pub ubuntu_release_upgrade : ActionSpec
ubuntu_release_upgrade = record {
  action_name = "UbuntuReleaseUpgrade";
  mechanism =
      command_mechanism "sudo" ("do-release-upgrade" ∷ "-f" ∷ "DistUpgradeViewNonInteractive" ∷ []);
  risk_level = high;
  reboot_required = true;
  rollback_available = false;
}
