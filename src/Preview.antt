-- ===== src/Preview.antt =====
-- crates/sysknife-daemon/src/preview.rs: the profile that a preview shows of an action.
-- `Preview/Shown` compares it with what the executor builds.
pub mod Shown
use Prim.Native.String.{◌++◌ as append}
use lacs.Prelude.{String, Bool, true, false, List, [], ◌∷◌, ◌++◌, contains, if◌then◌else◌}
use lacs.Json.{Value}
use lacs.Types.{RiskLevel, low, medium, high, PreviewEnvelope, RequestEnvelope}

pub record PreviewProfile : Type 0 where
  pub risk_level : RiskLevel
  pub expected_side_effects : List String
  pub reboot_required : Bool
  pub rollback_available : Bool
  pub warnings : List String

-- The arms of the `match` in `preview_profile` in the order of the source, each the names of its
-- pattern with the profile.
abbrev read_only_profiles : List (List String × PreviewProfile)
read_only_profiles =
    (
      "GetSystemState" ∷ "CollectDiagnostics" ∷ "GetDeploymentHistory" ∷ "ListDeployments"
          ∷ "GetKernelArguments" ∷ "GetPendingUpdates" ∷ "SearchFlatpakApps" ∷ "ListFlatpakRemotes"
          ∷ "ListInstalledFlatpaks" ∷ "GetFlatpakAppInfo" ∷ "ListToolboxes" ∷ "ListServices"
          ∷ "GetServiceLogs" ∷ "GetServiceStatus" ∷ "ListTimers" ∷ "GetFirewallState" ∷ "ListUsers"
          ∷ "ListGroups" ∷ "ListPackageRepositories" ∷ "ListContainers" ∷ "GetContainerInfo"
          ∷ "GetLayeredPackages" ∷ "GetDiskUsage" ∷ "ListProcesses" ∷ "GetMemoryInfo"
          ∷ "GetNetworkStatus" ∷ "GetAuthorizedKeys" ∷ "GetDateTime" ∷ "ListJobHistory"
          ∷ "AptSearch" ∷ "AptListInstalled" ∷ "AptShow" ∷ "SnapList" ∷ "SnapInfo" ∷ "UfwStatus"
          ∷ "DistroboxList" ∷ "NetplanGetConfig" ∷ "ProStatus" ∷ "LivepatchStatus" ∷ "MultipassList"
          ∷ [],
      record {
        risk_level = low;
        expected_side_effects = [];
        reboot_required = false;
        rollback_available = false;
        warnings = [];
      },
    )
    ∷ []

abbrev medium_profiles : List (List String × PreviewProfile)
medium_profiles =
    (
      "AptInstall" ∷ "AptRemove" ∷ "AptPurge" ∷ "AptHold" ∷ "AptUnhold" ∷ [],
      record {
        risk_level = medium;
        expected_side_effects =
            "package state will change" ∷ "services may be restarted by needrestart" ∷ [];
        reboot_required = false;
        rollback_available = false;
        warnings = "approval required" ∷ [];
      },
    )
    ∷ (
      "SnapInstall" ∷ "SnapRemove" ∷ "SnapRefresh" ∷ "SnapHold" ∷ "SnapUnhold" ∷ [],
      record {
        risk_level = medium;
        expected_side_effects = "snap state will change" ∷ [];
        reboot_required = false;
        rollback_available = false;
        warnings =
            "approval required" ∷ "snap auto-refresh: install is paired with --hold by default"
            ∷ [];
      },
    )
    ∷ (
      "DistroboxCreate" ∷ "DistroboxRemove" ∷ [],
      record {
        risk_level = medium;
        expected_side_effects = "container lifecycle will change" ∷ [];
        reboot_required = false;
        rollback_available = false;
        warnings = "approval required" ∷ [];
      },
    )
    ∷ (
      "AptUpgrade" ∷ [],
      record {
        risk_level = high;
        expected_side_effects =
            "all packages will be upgraded"
            ∷ "packages may be removed to resolve dependency conflicts"
            ∷ "services may be restarted by needrestart" ∷ [];
        reboot_required = false;
        rollback_available = false;
        warnings = "dist-upgrade may remove packages" ∷ "exact approval required" ∷ [];
      },
    )
    ∷ (
      "UfwEnable" ∷ "UfwDisable" ∷ "UfwAllow" ∷ "UfwDeny" ∷ "UfwReset" ∷ [],
      record {
        risk_level = high;
        expected_side_effects =
            "firewall rules will change" ∷ "network access may be immediately affected" ∷ [];
        reboot_required = false;
        rollback_available = false;
        warnings = "misconfigured rules can lock out SSH access" ∷ "exact approval required" ∷ [];
      },
    )
    ∷ (
      "NetplanApply" ∷ [],
      record {
        risk_level = high;
        expected_side_effects =
            "network interfaces will be reconfigured immediately"
            ∷ "SSH session may be disconnected" ∷ [];
        reboot_required = false;
        rollback_available = false;
        warnings =
            "can disconnect the current SSH session if config is wrong" ∷ "exact approval required"
            ∷ [];
      },
    )
    ∷ (
      "NetplanGenerate" ∷ [],
      record {
        risk_level = medium;
        expected_side_effects = "backend network config files will be regenerated" ∷ [];
        reboot_required = false;
        rollback_available = false;
        warnings = "approval required" ∷ [];
      },
    )
    ∷ (
      "NetplanSet" ∷ [],
      record {
        risk_level = high;
        expected_side_effects =
            "netplan configuration will be modified"
            ∷ "network may be affected when NetplanApply is run" ∷ [];
        reboot_required = false;
        rollback_available = true;
        warnings = "run NetplanApply to activate the change" ∷ "exact approval required" ∷ [];
      },
    )
    ∷ []

abbrev more_profiles : List (List String × PreviewProfile)
more_profiles =
    (
      "UfwDeleteRule" ∷ "UfwLimit" ∷ [],
      record {
        risk_level = high;
        expected_side_effects =
            "firewall rules will change" ∷ "network access may be immediately affected" ∷ [];
        reboot_required = false;
        rollback_available = false;
        warnings = "misconfigured rules can lock out SSH access" ∷ "exact approval required" ∷ [];
      },
    )
    ∷ (
      "ProAttach" ∷ [],
      record {
        risk_level = high;
        expected_side_effects =
            "Ubuntu Pro subscription will be attached"
            ∷ "Pro services (ESM, Livepatch, FIPS) may be enabled" ∷ [];
        reboot_required = false;
        rollback_available = true;
        warnings =
            "exact approval required"
            ∷ "token is redacted from the preview, audit log, and diagnostic output" ∷ [];
      },
    )
    ∷ (
      "ProDetach" ∷ [],
      record {
        risk_level = high;
        expected_side_effects =
            "Ubuntu Pro subscription will be released"
            ∷ "ESM, Livepatch, and FIPS services will be disabled" ∷ [];
        reboot_required = false;
        rollback_available = true;
        warnings =
            "exact approval required"
            ∷ "after detach, this machine no longer receives Pro security patches" ∷ [];
      },
    )
    ∷ (
      "UbuntuReleaseUpgrade" ∷ [],
      record {
        risk_level = high;
        expected_side_effects =
            "entire OS will be upgraded to the next Ubuntu release"
            ∷ "takes 20–45 minutes; system will be rebooted to complete"
            ∷ "third-party PPAs may be disabled or break during upgrade" ∷ [];
        reboot_required = true;
        rollback_available = false;
        warnings =
            "reboot required to complete the upgrade"
            ∷ "long-running operation — configure timeout >= 3600 seconds"
            ∷ "exact approval required" ∷ [];
      },
    )
    ∷ (
      "ReloadService" ∷ [],
      record {
        risk_level = medium;
        expected_side_effects = "service config will be reloaded" ∷ [];
        reboot_required = false;
        rollback_available = false;
        warnings =
            "approval required"
            ∷ "requires ExecReload= to be defined in the unit file; if not defined, use RestartService instead"
            ∷ [];
      },
    )
    ∷ (
      "RestartService" ∷ "ReloadDaemon" ∷ "SetServiceEnabled" ∷ "StartService" ∷ "StopService"
          ∷ "ConfigureWifi" ∷ "SetDnsServers" ∷ "ConfigureFirewall" ∷ "CreateToolbox"
          ∷ "RemoveToolbox" ∷ "InstallFlatpak" ∷ "RemoveFlatpak" ∷ "UpdateFlatpak"
          ∷ "AddFlatpakRemote" ∷ "RemoveFlatpakRemote" ∷ "MaskService" ∷ "UnmaskService"
          ∷ "SetHostname" ∷ "SetTimezone" ∷ "SetLocale" ∷ "SetNtp" ∷ "CreateUser" ∷ [],
      record {
        risk_level = medium;
        expected_side_effects = "service interruption" ∷ [];
        reboot_required = false;
        rollback_available = false;
        warnings = "approval required" ∷ [];
      },
    )
    ∷ (
      "AddUserToGroup" ∷ "RemoveUserFromGroup" ∷ "DeleteUser" ∷ "AddAuthorizedKey"
          ∷ "RemoveAuthorizedKey" ∷ [],
      record {
        risk_level = high;
        expected_side_effects = "access control will change" ∷ [];
        reboot_required = false;
        rollback_available = false;
        warnings = "privilege change" ∷ "exact approval required" ∷ [];
      },
    )
    ∷ (
      "AddPackageRepository" ∷ "RemovePackageRepository" ∷ "EnablePackageRepository"
          ∷ "DisablePackageRepository" ∷ [],
      record {
        risk_level = medium;
        expected_side_effects = "package repository configuration will change" ∷ [];
        reboot_required = false;
        rollback_available = false;
        warnings = "approval required" ∷ [];
      },
    )
    ∷ []

abbrev high_profiles : List (List String × PreviewProfile)
high_profiles =
    (
      "CreateContainer" ∷ "StartContainer" ∷ "StopContainer" ∷ "RemoveContainer" ∷ [],
      record {
        risk_level = medium;
        expected_side_effects = "container lifecycle will change" ∷ [];
        reboot_required = false;
        rollback_available = false;
        warnings = "approval required" ∷ [];
      },
    )
    ∷ (
      "UpdateSystem" ∷ "InstallPackages" ∷ "RemovePackages" ∷ "RebaseSystem" ∷ "RollbackDeployment"
          ∷ "AddLayeredPackage" ∷ "RemoveLayeredPackage" ∷ "ReplaceLayeredPackage"
          ∷ "ResetLayeredPackageOverride" ∷ "RemoveBasePackage" ∷ [],
      record {
        risk_level = high;
        expected_side_effects = "system deployment will change" ∷ "reboot may be required" ∷ [];
        reboot_required = true;
        rollback_available = true;
        warnings = "reboot required" ∷ "exact approval required" ∷ [];
      },
    )
    ∷ (
      "SetKernelArguments" ∷ [],
      record {
        risk_level = high;
        expected_side_effects = "boot arguments will change" ∷ [];
        reboot_required = true;
        rollback_available = true;
        warnings = "reboot required" ∷ "exact approval required" ∷ [];
      },
    )
    ∷ (
      "RebootSystem" ∷ [],
      record {
        risk_level = high;
        expected_side_effects = "system reboot will interrupt running work" ∷ [];
        reboot_required = true;
        rollback_available = false;
        warnings = "reboot required" ∷ "exact approval required" ∷ [];
      },
    )
    ∷ (
      "CleanupDeployments" ∷ [],
      record {
        risk_level = high;
        expected_side_effects = "old deployments may be removed" ∷ [];
        reboot_required = false;
        rollback_available = false;
        warnings = "exact approval required" ∷ [];
      },
    )
    ∷ (
      "PinDeployment" ∷ "UnpinDeployment" ∷ [],
      record {
        risk_level = high;
        expected_side_effects = "deployment pin state will change" ∷ [];
        reboot_required = false;
        rollback_available = false;
        warnings = "exact approval required" ∷ [];
      },
    )
    ∷ []

-- The last arm.
abbrev unclassified : PreviewProfile
unclassified = record {
  risk_level = high;
  expected_side_effects = "unclassified action" ∷ [];
  reboot_required = false;
  rollback_available = false;
  warnings = "action profile not recognized" ∷ [];
}

-- The first arm whose pattern has the name.
abbrev first_profile : List (List String × PreviewProfile) → String → PreviewProfile
first_profile [] action_name = unclassified
first_profile ((names, profile) ∷ arms) action_name =
    let rest = first_profile arms action_name in
    if contains names action_name then profile else rest

unfoldable pub preview_profile : String → PreviewProfile
preview_profile action_name =
    first_profile (read_only_profiles ++ (medium_profiles ++ (more_profiles ++ high_profiles)))
      action_name

unfoldable pub preview_summary : String → RiskLevel → String
preview_summary action_name risk_level = append action_name (
    append " preview (" (
      append (elim risk_level [ low ↦ "low-risk" | medium ↦ "medium-risk" | high ↦ "high-risk" ])
        ")"))

unfoldable pub preview_action : RequestEnvelope → Value → Value → PreviewEnvelope
unfolding preview_profile preview_summary
preview_action request current_state proposed_change =
    let profile = preview_profile request.action_name in
    record {
      summary = preview_summary request.action_name profile.risk_level;
      risk_level = profile.risk_level;
      current_state = current_state;
      proposed_change = proposed_change;
      expected_side_effects = profile.expected_side_effects;
      reboot_required = profile.reboot_required;
      rollback_available = profile.rollback_available;
      warnings = profile.warnings;
      request_hash = request.request_hash;
    }
