-- ===== src/Types/Actions.antt =====
-- crates/sysknife-types/src/lib.rs: `KNOWN_ACTION_NAMES` and `ActionName`.
use lacs.Prelude.{String, List, [], ◌∷◌, contains, if◌then◌else◌}

unfoldable pub known_action_names : List String
known_action_names =
    "GetSystemState" ∷ "CollectDiagnostics" ∷ "GetDeploymentHistory" ∷ "ListDeployments"
    ∷ "UpdateSystem" ∷ "CleanupDeployments" ∷ "RebootSystem" ∷ "RollbackDeployment"
    ∷ "GetKernelArguments" ∷ "PinDeployment" ∷ "UnpinDeployment" ∷ "RebaseSystem"
    ∷ "SetKernelArguments" ∷ "InstallFlatpak" ∷ "RemoveFlatpak" ∷ "UpdateFlatpak"
    ∷ "SearchFlatpakApps" ∷ "ListFlatpakRemotes" ∷ "ListInstalledFlatpaks" ∷ "AddFlatpakRemote"
    ∷ "RemoveFlatpakRemote" ∷ "GetFlatpakAppInfo" ∷ "ListToolboxes" ∷ "CreateToolbox"
    ∷ "RemoveToolbox" ∷ "GetLayeredPackages" ∷ "ResetLayeredPackageOverride" ∷ "GetPendingUpdates"
    ∷ "InstallPackages" ∷ "RemovePackages" ∷ "AddLayeredPackage" ∷ "RemoveLayeredPackage"
    ∷ "ReplaceLayeredPackage" ∷ "RemoveBasePackage" ∷ "ListServices" ∷ "ListTimers" ∷ "ReloadDaemon"
    ∷ "StartService" ∷ "StopService" ∷ "RestartService" ∷ "ReloadService" ∷ "SetServiceEnabled"
    ∷ "MaskService" ∷ "UnmaskService" ∷ "GetServiceLogs" ∷ "GetServiceStatus" ∷ "GetFirewallState"
    ∷ "GetNetworkStatus" ∷ "ConfigureWifi" ∷ "SetDnsServers" ∷ "ConfigureFirewall" ∷ "GetDiskUsage"
    ∷ "ListProcesses" ∷ "GetMemoryInfo" ∷ "GetDateTime" ∷ "SetHostname" ∷ "SetTimezone"
    ∷ "SetLocale" ∷ "SetNtp" ∷ "ListPackageRepositories" ∷ "AddPackageRepository"
    ∷ "RemovePackageRepository" ∷ "EnablePackageRepository" ∷ "DisablePackageRepository"
    ∷ "ListContainers" ∷ "CreateContainer" ∷ "StartContainer" ∷ "StopContainer" ∷ "RemoveContainer"
    ∷ "GetContainerInfo" ∷ "ListUsers" ∷ "ListGroups" ∷ "CreateUser" ∷ "DeleteUser"
    ∷ "AddUserToGroup" ∷ "RemoveUserFromGroup" ∷ "GetAuthorizedKeys" ∷ "AddAuthorizedKey"
    ∷ "RemoveAuthorizedKey" ∷ "ListJobHistory" ∷ "AptUpdate" ∷ "AptUpgrade" ∷ "AptInstall"
    ∷ "AptRemove" ∷ "AptPurge" ∷ "AptAutoremove" ∷ "AptHold" ∷ "AptUnhold" ∷ "AptSearch"
    ∷ "AptListInstalled" ∷ "AptShow" ∷ "AptListUpgradable" ∷ "AptHistoryList" ∷ "AddPpa"
    ∷ "RemovePpa" ∷ "SnapInstall" ∷ "SnapRemove" ∷ "SnapRefresh" ∷ "SnapHold" ∷ "SnapUnhold"
    ∷ "SnapList" ∷ "SnapInfo" ∷ "SnapRevert" ∷ "SnapClassicInstall" ∷ "UfwEnable" ∷ "UfwDisable"
    ∷ "UfwAllow" ∷ "UfwDeny" ∷ "UfwReset" ∷ "UfwStatus" ∷ "DistroboxList" ∷ "DistroboxCreate"
    ∷ "DistroboxRemove" ∷ "NetplanGetConfig" ∷ "NetplanApply" ∷ "NetplanSet" ∷ "NetplanGenerate"
    ∷ "GrubGetKargs" ∷ "GrubSetKargs" ∷ "CheckPendingReboot" ∷ "ResolvectlStatus"
    ∷ "ResolvectlSetDns" ∷ "AppArmorStatus" ∷ "AppArmorEnforce" ∷ "AppArmorComplain"
    ∷ "CloudInitStatus" ∷ "UbuntuInstallFlatpak" ∷ "UbuntuRemoveFlatpak" ∷ "UbuntuUpdateFlatpak"
    ∷ "UbuntuListFlatpaks" ∷ "Fail2banStatus" ∷ "Fail2banBanIp" ∷ "Fail2banUnbanIp"
    ∷ "UbuntuReleaseUpgrade" ∷ "ProStatus" ∷ "ProAttach" ∷ "ProDetach" ∷ "LivepatchStatus"
    ∷ "MultipassList" ∷ "UfwDeleteRule" ∷ "UfwLimit" ∷ []

-- A name of the catalogue.
pub record ActionName : Type 0 where
  pub as_str : String

pub data ParseResult : Type 0 where
  ok : ActionName → ParseResult
  unknown_action_name : String → ParseResult

unfoldable pub parse : String → ParseResult
parse name =
    if contains known_action_names name
    then ok (record { as_str = name })
    else unknown_action_name name
