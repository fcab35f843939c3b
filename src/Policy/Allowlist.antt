-- ===== src/Policy/Allowlist.antt =====
-- crates/sysknife-daemon/src/policy.rs: the names in the arms of `min_role_for_action`.
use lacs.Prelude.{String, List, [], ◌∷◌}

unfoldable pub observer_actions : List String
observer_actions =
    "GetSystemState" ∷ "CollectDiagnostics" ∷ "GetDeploymentHistory" ∷ "ListDeployments"
    ∷ "GetKernelArguments" ∷ "GetPendingUpdates" ∷ "ListFlatpakRemotes" ∷ "SearchFlatpakApps"
    ∷ "GetFlatpakAppInfo" ∷ "ListInstalledFlatpaks" ∷ "ListContainers" ∷ "GetContainerInfo"
    ∷ "GetLayeredPackages" ∷ "ListPackageRepositories" ∷ "ListServices" ∷ "GetServiceLogs"
    ∷ "GetServiceStatus" ∷ "ListTimers" ∷ "ListToolboxes" ∷ "GetFirewallState" ∷ "GetNetworkStatus"
    ∷ "GetDiskUsage" ∷ "GetDateTime" ∷ "ListProcesses" ∷ "GetMemoryInfo" ∷ "GetAuthorizedKeys"
    ∷ "ListUsers" ∷ "ListGroups" ∷ "ListJobHistory" ∷ "AptUpdate" ∷ "AptSearch" ∷ "AptListInstalled"
    ∷ "AptShow" ∷ "AptListUpgradable" ∷ "AptHistoryList" ∷ "SnapList" ∷ "SnapInfo" ∷ "UfwStatus"
    ∷ "DistroboxList" ∷ "NetplanGetConfig" ∷ "GrubGetKargs" ∷ "CheckPendingReboot"
    ∷ "ResolvectlStatus" ∷ "AppArmorStatus" ∷ "CloudInitStatus" ∷ "UbuntuListFlatpaks"
    ∷ "Fail2banStatus" ∷ "ProStatus" ∷ "LivepatchStatus" ∷ "MultipassList" ∷ []

unfoldable pub dev_actions : List String
dev_actions =
    "InstallFlatpak" ∷ "RemoveFlatpak" ∷ "UpdateFlatpak" ∷ "AddFlatpakRemote"
    ∷ "RemoveFlatpakRemote" ∷ "CreateContainer" ∷ "StartContainer" ∷ "StopContainer"
    ∷ "RemoveContainer" ∷ "StartService" ∷ "StopService" ∷ "RestartService" ∷ "ReloadService"
    ∷ "ReloadDaemon" ∷ "SetServiceEnabled" ∷ "UnmaskService" ∷ "CreateToolbox" ∷ "RemoveToolbox"
    ∷ "SetHostname" ∷ "SetTimezone" ∷ "SetLocale" ∷ "SetNtp" ∷ "ConfigureWifi"
    ∷ "RemovePackageRepository" ∷ "EnablePackageRepository" ∷ "DisablePackageRepository"
    ∷ "AptAutoremove" ∷ "AptInstall" ∷ "AptRemove" ∷ "AptPurge" ∷ "AptHold" ∷ "AptUnhold"
    ∷ "SnapInstall" ∷ "SnapRemove" ∷ "SnapRefresh" ∷ "SnapHold" ∷ "SnapUnhold" ∷ "SnapRevert"
    ∷ "SnapClassicInstall" ∷ "DistroboxCreate" ∷ "DistroboxRemove" ∷ "AddPpa" ∷ "RemovePpa"
    ∷ "ResolvectlSetDns" ∷ "AppArmorComplain" ∷ "UbuntuInstallFlatpak" ∷ "UbuntuRemoveFlatpak"
    ∷ "UbuntuUpdateFlatpak" ∷ "Fail2banUnbanIp" ∷ "NetplanGenerate" ∷ []

unfoldable pub admin_actions : List String
admin_actions =
    "UpdateSystem" ∷ "PinDeployment" ∷ "UnpinDeployment" ∷ "RebaseSystem" ∷ "CleanupDeployments"
    ∷ "RebootSystem" ∷ "RollbackDeployment" ∷ "SetKernelArguments" ∷ "InstallPackages"
    ∷ "RemovePackages" ∷ "AddLayeredPackage" ∷ "RemoveLayeredPackage" ∷ "ReplaceLayeredPackage"
    ∷ "ResetLayeredPackageOverride" ∷ "RemoveBasePackage" ∷ "AddUserToGroup" ∷ "RemoveUserFromGroup"
    ∷ "DeleteUser" ∷ "AddAuthorizedKey" ∷ "RemoveAuthorizedKey" ∷ "CreateUser" ∷ "ConfigureFirewall"
    ∷ "MaskService" ∷ "AddPackageRepository" ∷ "SetDnsServers" ∷ "AptUpgrade" ∷ "UfwEnable"
    ∷ "UfwDisable" ∷ "UfwAllow" ∷ "UfwDeny" ∷ "UfwReset" ∷ "NetplanApply" ∷ "GrubSetKargs"
    ∷ "AppArmorEnforce" ∷ "Fail2banBanIp" ∷ "UfwDeleteRule" ∷ "UfwLimit" ∷ "NetplanSet"
    ∷ "ProAttach" ∷ "ProDetach" ∷ "UbuntuReleaseUpgrade" ∷ []
