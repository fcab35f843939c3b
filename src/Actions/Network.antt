-- ===== src/Actions/Network.antt =====
-- crates/sysknife-daemon/src/actions: network.rs, netplan.rs and resolvectl.rs. A constructor gives
-- what an action runs, its risk and its flags.
use lacs.Prelude.{String, Bool, true, false, Option, none, some, List, [], ◌∷◌, if◌then◌else◌}
use lacs.Types.{low, medium, high}
use lacs.Executor.{command, ActionSpec}
use lacs.Actions.{command_mechanism, concat}

abbrev pub configure_wifi : String → Option String → ActionSpec
configure_wifi ssid password = record {
  action_name = "ConfigureWifi";
  mechanism = command "sudo" (
      "nmcli"
      ∷ "device"
      ∷ "wifi"
      ∷ "connect"
      ∷ ssid
      ∷ (elim password [ none ↦ [] | some pw ↦ "password" ∷ pw ∷ [] ]));
  risk_level = medium;
  reboot_required = false;
  rollback_available = false;
}

abbrev pub set_dns_servers : String → List String → ActionSpec
set_dns_servers interface servers = record {
  action_name = "SetDnsServers";
  mechanism = command_mechanism "sudo" ("resolvectl" ∷ "dns" ∷ interface ∷ servers);
  risk_level = high;
  reboot_required = false;
  rollback_available = false;
}

abbrev pub configure_firewall : String → String → Bool → ActionSpec
configure_firewall zone service enabled = record {
  action_name = "ConfigureFirewall";
  mechanism =
      let verb = if enabled then "add-service" else "remove-service" in
      let script = concat (
        "firewall-cmd --permanent --zone='" ∷ zone ∷ "' --" ∷ verb ∷ "='" ∷ service
        ∷ "' && firewall-cmd --reload" ∷ []) in
      command "sudo" ("sh" ∷ "-c" ∷ script ∷ []);
  risk_level = high;
  reboot_required = false;
  rollback_available = false;
}

abbrev pub get_firewall_state : ActionSpec
get_firewall_state = record {
  action_name = "GetFirewallState";
  mechanism = command_mechanism "firewall-cmd" ("--list-all" ∷ []);
  risk_level = low;
  reboot_required = false;
  rollback_available = false;
}

abbrev pub get_network_status : ActionSpec
get_network_status = record {
  action_name = "GetNetworkStatus";
  mechanism = command_mechanism "ip" ("-brief" ∷ "addr" ∷ []);
  risk_level = low;
  reboot_required = false;
  rollback_available = false;
}

abbrev pub netplan_get_config : ActionSpec
netplan_get_config = record {
  action_name = "NetplanGetConfig";
  mechanism = command_mechanism "find" (
      "/etc/netplan" ∷ "-maxdepth" ∷ "1" ∷ "-name" ∷ "*.yaml" ∷ "-print" ∷ "-exec" ∷ "cat" ∷ "{}"
      ∷ "+" ∷ []);
  risk_level = low;
  reboot_required = false;
  rollback_available = false;
}

abbrev pub netplan_set : String → String → ActionSpec
netplan_set key value = record {
  action_name = "NetplanSet";
  mechanism = command_mechanism "sudo" ("netplan" ∷ "set" ∷ (concat (key ∷ "=" ∷ value ∷ [])) ∷ []);
  risk_level = high;
  reboot_required = false;
  rollback_available = true;
}

abbrev pub netplan_generate : ActionSpec
netplan_generate = record {
  action_name = "NetplanGenerate";
  mechanism = command_mechanism "sudo" ("netplan" ∷ "generate" ∷ []);
  risk_level = medium;
  reboot_required = false;
  rollback_available = false;
}

abbrev pub netplan_apply : ActionSpec
netplan_apply = record {
  action_name = "NetplanApply";
  mechanism = command_mechanism "sudo" ("netplan" ∷ "apply" ∷ []);
  risk_level = high;
  reboot_required = false;
  rollback_available = false;
}

abbrev pub resolvectl_status : ActionSpec
resolvectl_status = record {
  action_name = "ResolvectlStatus";
  mechanism = command_mechanism "resolvectl" ("status" ∷ []);
  risk_level = low;
  reboot_required = false;
  rollback_available = false;
}

-- An address is the text that `to_string` prints.
abbrev pub resolvectl_set_dns : String → List String → ActionSpec
resolvectl_set_dns interface servers = record {
  action_name = "ResolvectlSetDns";
  mechanism = command "sudo" ("resolvectl" ∷ "dns" ∷ interface ∷ servers);
  risk_level = medium;
  reboot_required = false;
  rollback_available = false;
}
