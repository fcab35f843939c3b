-- ===== src/Actions/Services.antt =====
-- crates/sysknife-daemon/src/actions: services.rs and identity.rs. A constructor gives what an
-- action runs, its risk and its flags.
use lacs.Prelude.{String, Bool, false, [], ◌∷◌, if◌then◌else◌}
use lacs.Types.{low, medium, high}
use lacs.Executor.{ActionSpec}
use lacs.Actions.{command_mechanism}

abbrev pub list_services : ActionSpec
list_services = record {
  action_name = "ListServices";
  mechanism =
      command_mechanism "systemctl"
        ("list-units" ∷ "--type=service" ∷ "--all" ∷ "--no-legend" ∷ "--no-pager" ∷ []);
  risk_level = low;
  reboot_required = false;
  rollback_available = false;
}

abbrev pub start_service : String → ActionSpec
start_service unit = record {
  action_name = "StartService";
  mechanism = command_mechanism "sudo" ("systemctl" ∷ "start" ∷ unit ∷ []);
  risk_level = medium;
  reboot_required = false;
  rollback_available = false;
}

abbrev pub stop_service : String → ActionSpec
stop_service unit = record {
  action_name = "StopService";
  mechanism = command_mechanism "sudo" ("systemctl" ∷ "stop" ∷ unit ∷ []);
  risk_level = medium;
  reboot_required = false;
  rollback_available = false;
}

abbrev pub restart_service : String → ActionSpec
restart_service unit = record {
  action_name = "RestartService";
  mechanism = command_mechanism "sudo" ("systemctl" ∷ "restart" ∷ unit ∷ []);
  risk_level = medium;
  reboot_required = false;
  rollback_available = false;
}

abbrev pub set_service_enabled : String → Bool → ActionSpec
set_service_enabled unit enabled = record {
  action_name = "SetServiceEnabled";
  mechanism =
      command_mechanism "sudo"
        ("systemctl" ∷ (if enabled then "enable" else "disable") ∷ unit ∷ []);
  risk_level = medium;
  reboot_required = false;
  rollback_available = false;
}

abbrev pub mask_service : String → ActionSpec
mask_service unit = record {
  action_name = "MaskService";
  mechanism = command_mechanism "sudo" ("systemctl" ∷ "mask" ∷ unit ∷ []);
  risk_level = high;
  reboot_required = false;
  rollback_available = false;
}

abbrev pub unmask_service : String → ActionSpec
unmask_service unit = record {
  action_name = "UnmaskService";
  mechanism = command_mechanism "sudo" ("systemctl" ∷ "unmask" ∷ unit ∷ []);
  risk_level = medium;
  reboot_required = false;
  rollback_available = false;
}

abbrev pub get_service_status : String → ActionSpec
get_service_status unit = record {
  action_name = "GetServiceStatus";
  mechanism = command_mechanism "systemctl" ("status" ∷ unit ∷ "--no-pager" ∷ []);
  risk_level = low;
  reboot_required = false;
  rollback_available = false;
}

abbrev pub reload_service : String → ActionSpec
reload_service unit = record {
  action_name = "ReloadService";
  mechanism = command_mechanism "sudo" ("systemctl" ∷ "reload" ∷ unit ∷ []);
  risk_level = medium;
  reboot_required = false;
  rollback_available = false;
}

abbrev pub list_timers : ActionSpec
list_timers = record {
  action_name = "ListTimers";
  mechanism =
      command_mechanism "systemctl" ("list-timers" ∷ "--all" ∷ "--no-legend" ∷ "--no-pager" ∷ []);
  risk_level = low;
  reboot_required = false;
  rollback_available = false;
}

abbrev pub reload_daemon : ActionSpec
reload_daemon = record {
  action_name = "ReloadDaemon";
  mechanism = command_mechanism "sudo" ("systemctl" ∷ "daemon-reload" ∷ []);
  risk_level = medium;
  reboot_required = false;
  rollback_available = false;
}

abbrev pub get_service_logs : String → ActionSpec
get_service_logs unit = record {
  action_name = "GetServiceLogs";
  mechanism = command_mechanism "journalctl" ("-u" ∷ unit ∷ "-n" ∷ "200" ∷ "--no-pager" ∷ []);
  risk_level = low;
  reboot_required = false;
  rollback_available = false;
}

abbrev pub get_datetime : ActionSpec
get_datetime = record {
  action_name = "GetDateTime";
  mechanism = command_mechanism "timedatectl" [];
  risk_level = low;
  reboot_required = false;
  rollback_available = false;
}

abbrev pub set_hostname : String → ActionSpec
set_hostname hostname = record {
  action_name = "SetHostname";
  mechanism = command_mechanism "sudo" ("hostnamectl" ∷ "set-hostname" ∷ hostname ∷ []);
  risk_level = medium;
  reboot_required = false;
  rollback_available = false;
}

abbrev pub set_timezone : String → ActionSpec
set_timezone timezone = record {
  action_name = "SetTimezone";
  mechanism = command_mechanism "sudo" ("timedatectl" ∷ "set-timezone" ∷ timezone ∷ []);
  risk_level = medium;
  reboot_required = false;
  rollback_available = false;
}

abbrev pub set_locale : String → ActionSpec
set_locale locale = record {
  action_name = "SetLocale";
  mechanism = command_mechanism "sudo" ("localectl" ∷ "set-locale" ∷ locale ∷ []);
  risk_level = medium;
  reboot_required = false;
  rollback_available = false;
}

abbrev pub set_ntp : Bool → ActionSpec
set_ntp enabled = record {
  action_name = "SetNtp";
  mechanism =
      command_mechanism "sudo"
        ("timedatectl" ∷ "set-ntp" ∷ (if enabled then "true" else "false") ∷ []);
  risk_level = medium;
  reboot_required = false;
  rollback_available = false;
}
