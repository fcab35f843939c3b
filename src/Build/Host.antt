-- ===== src/Build/Host.antt =====
-- crates/sysknife-daemon/src/executor.rs: arms of the `match` in `build_action_spec`, each a name
-- with what it does with the parameters, in the order of the source.
use lacs.Prelude.{List, [], ◌∷◌}
use lacs.Executor.{ok, ◌>>=◌}
use lacs.Validate.{
  validated_unit_name, validated_hostname, validated_timezone, validated_locale, validated_safe_arg,
}
use lacs.Params.{
  require_str, require_bool, str_array_or_empty, validated_each, nonempty_str, validated_optional,
  Arm,
}
use lacs.Actions.Monitor.{disk_usage_spec, get_memory_info_spec, list_processes_spec}
use lacs.Actions.Network.{
  configure_firewall, configure_wifi, get_firewall_state, get_network_status, set_dns_servers,
}
use lacs.Actions.Services.{
  get_datetime, get_service_logs, get_service_status, list_services, list_timers, mask_service,
  reload_daemon, reload_service, restart_service, set_hostname, set_locale, set_ntp,
  set_service_enabled, set_timezone, start_service, stop_service, unmask_service,
}

unfoldable pub service_arms : List Arm
service_arms =
    ("ListServices", λ params. ok list_services)
    ∷ (
      "StartService",
      λ params. do
        unit ← validated_unit_name (← require_str params "unit") "unit"
        ok (start_service unit),
    )
    ∷ (
      "StopService",
      λ params. do
        unit ← validated_unit_name (← require_str params "unit") "unit"
        ok (stop_service unit),
    )
    ∷ (
      "RestartService",
      λ params. do
        unit ← validated_unit_name (← require_str params "unit") "unit"
        ok (restart_service unit),
    )
    ∷ (
      "SetServiceEnabled",
      λ params. do
        unit ← validated_unit_name (← require_str params "unit") "unit"
        ok (set_service_enabled unit (← require_bool params "enabled")),
    )
    ∷ (
      "MaskService",
      λ params. do
        unit ← validated_unit_name (← require_str params "unit") "unit"
        ok (mask_service unit),
    )
    ∷ (
      "UnmaskService",
      λ params. do
        unit ← validated_unit_name (← require_str params "unit") "unit"
        ok (unmask_service unit),
    )
    ∷ (
      "GetServiceLogs",
      λ params. do
        unit ← validated_unit_name (← require_str params "unit") "unit"
        ok (get_service_logs unit),
    )
    ∷ (
      "GetServiceStatus",
      λ params. do
        unit ← validated_unit_name (← require_str params "unit") "unit"
        ok (get_service_status unit),
    )
    ∷ (
      "ReloadService",
      λ params. do
        unit ← validated_unit_name (← require_str params "unit") "unit"
        ok (reload_service unit),
    )
    ∷ ("ListTimers", λ params. ok list_timers)
    ∷ ("ReloadDaemon", λ params. ok reload_daemon)
    ∷ []

unfoldable pub identity_arms : List Arm
identity_arms =
    ("GetDateTime", λ params. ok get_datetime)
    ∷ (
      "SetHostname",
      λ params. do
        hostname ← validated_hostname (← require_str params "hostname") "hostname"
        ok (set_hostname hostname),
    )
    ∷ (
      "SetTimezone",
      λ params. do
        timezone ← validated_timezone (← require_str params "timezone") "timezone"
        ok (set_timezone timezone),
    )
    ∷ (
      "SetLocale",
      λ params. do
        locale ← validated_locale (← require_str params "locale") "locale"
        ok (set_locale locale),
    )
    ∷ ("SetNtp", λ params. do ok (set_ntp (← require_bool params "enabled")))
    ∷ ("GetDiskUsage", λ params. ok disk_usage_spec)
    ∷ ("ListProcesses", λ params. ok list_processes_spec)
    ∷ ("GetMemoryInfo", λ params. ok get_memory_info_spec)
    ∷ []

unfoldable pub network_arms : List Arm
network_arms =
    ("GetFirewallState", λ params. ok get_firewall_state)
    ∷ ("GetNetworkStatus", λ params. ok get_network_status)
    ∷ (
      "ConfigureWifi",
      λ params. do
        ssid ← validated_safe_arg (← require_str params "ssid") "ssid"
        password ←
            validated_optional (λ s. validated_safe_arg s "password")
              (nonempty_str params "password")
        ok (configure_wifi ssid password),
    )
    ∷ (
      "SetDnsServers",
      λ params. do
        interface ← validated_safe_arg (← require_str params "interface") "interface"
        servers ← str_array_or_empty params "servers"
        validated ← validated_each (λ s. validated_safe_arg s "servers") servers
        ok (set_dns_servers interface validated),
    )
    ∷ (
      "ConfigureFirewall",
      λ params. do
        zone ← validated_safe_arg (← require_str params "zone") "zone"
        service ← validated_safe_arg (← require_str params "service") "service"
        ok (configure_firewall zone service (← require_bool params "enabled")),
    )
    ∷ []
