-- ===== src/Actions/Firewall.antt =====
-- crates/sysknife-daemon/src/actions: ufw.rs and fail2ban.rs. A constructor gives what an action
-- runs, its risk and its flags.
use lacs.Prelude.{
  ℕ, String, Bool, false, ◌||◌, not, Option, none, some, [], ◌∷◌, all, ltb, ◌==◌, ◌⊎◌, inl, inr,
  if◌then◌else◌,
}
use lacs.Prelude.Text.{codes}
use lacs.Types.{low, medium, high}
use lacs.Executor.{ActionSpec}
use lacs.Validate.{is_empty, starts_with_char, len, is_ascii_alphanumeric}
use lacs.Params.{Std}
use lacs.Actions.{command_mechanism, u32_to_string}

abbrev pub ufw_enable : ActionSpec
ufw_enable = record {
  action_name = "UfwEnable";
  mechanism = command_mechanism "sudo" ("ufw" ∷ "--force" ∷ "enable" ∷ []);
  risk_level = high;
  reboot_required = false;
  rollback_available = false;
}

abbrev pub ufw_disable : ActionSpec
ufw_disable = record {
  action_name = "UfwDisable";
  mechanism = command_mechanism "sudo" ("ufw" ∷ "disable" ∷ []);
  risk_level = high;
  reboot_required = false;
  rollback_available = false;
}

abbrev pub ufw_allow : String → ActionSpec
ufw_allow port_or_service = record {
  action_name = "UfwAllow";
  mechanism = command_mechanism "sudo" ("ufw" ∷ "allow" ∷ port_or_service ∷ []);
  risk_level = high;
  reboot_required = false;
  rollback_available = false;
}

abbrev pub ufw_deny : String → ActionSpec
ufw_deny port_or_service = record {
  action_name = "UfwDeny";
  mechanism = command_mechanism "sudo" ("ufw" ∷ "deny" ∷ port_or_service ∷ []);
  risk_level = high;
  reboot_required = false;
  rollback_available = false;
}

abbrev pub ufw_reset : ActionSpec
ufw_reset = record {
  action_name = "UfwReset";
  mechanism = command_mechanism "sudo" ("ufw" ∷ "--force" ∷ "reset" ∷ []);
  risk_level = high;
  reboot_required = false;
  rollback_available = false;
}

abbrev pub ufw_status : ActionSpec
ufw_status = record {
  action_name = "UfwStatus";
  mechanism = command_mechanism "sudo" ("ufw" ∷ "status" ∷ "verbose" ∷ []);
  risk_level = low;
  reboot_required = false;
  rollback_available = false;
}

abbrev pub ufw_delete_rule : ℕ → String ⊎ ActionSpec
ufw_delete_rule rule_number =
    if rule_number == 0
    then inl "rule_number must be a positive integer (>= 1)"
    else inr (record {
      action_name = "UfwDeleteRule";
      mechanism =
          command_mechanism "sudo" ("ufw" ∷ "--force" ∷ "delete" ∷ u32_to_string rule_number ∷ []);
      risk_level = high;
      reboot_required = false;
      rollback_available = false;
    })

abbrev pub ufw_limit : String → ActionSpec
ufw_limit target = record {
  action_name = "UfwLimit";
  mechanism = command_mechanism "sudo" ("ufw" ∷ "limit" ∷ target ∷ []);
  risk_level = high;
  reboot_required = false;
  rollback_available = false;
}

pub data Fail2banError : Type 0 where
  invalid_ip_address : String → Fail2banError
  invalid_jail : String → Fail2banError

unfoldable pub jail_is_valid : String → Bool
jail_is_valid jail =
    if is_empty (codes jail) || ltb 64 (len jail)
    then false
    else if starts_with_char b'-' (codes jail)
    then false
    else all (λ c. is_ascii_alphanumeric c || c == b'_' || c == b'-' || c == b'.') (codes jail)

abbrev pub fail2ban_status : Option String → ActionSpec
fail2ban_status jail = record {
  action_name = "Fail2banStatus";
  mechanism = command_mechanism "sudo" (elim jail [
    | some j ↦ "fail2ban-client" ∷ "status" ∷ j ∷ []
    | none ↦ "fail2ban-client" ∷ "status" ∷ []
  ]);
  risk_level = low;
  reboot_required = false;
  rollback_available = false;
}

unfoldable pub fail2ban_ban_ip : Std → String → String → Fail2banError ⊎ ActionSpec
unfolding jail_is_valid
fail2ban_ban_ip std jail ip =
    if not (jail_is_valid jail) then inl (invalid_jail jail) else elim (std.ip_from_str ip) [
      | none ↦ inl (invalid_ip_address ip)
      | some parsed ↦ inr (record {
        action_name = "Fail2banBanIp";
        mechanism = command_mechanism "sudo" ("fail2ban-client" ∷ "set" ∷ jail ∷ "banip" ∷ ip ∷ []);
        risk_level = high;
        reboot_required = false;
        rollback_available = false;
      })
    ]

unfoldable pub fail2ban_unban_ip : Std → String → String → Fail2banError ⊎ ActionSpec
unfolding jail_is_valid
fail2ban_unban_ip std jail ip =
    if not (jail_is_valid jail) then inl (invalid_jail jail) else elim (std.ip_from_str ip) [
      | none ↦ inl (invalid_ip_address ip)
      | some parsed ↦ inr (record {
        action_name = "Fail2banUnbanIp";
        mechanism =
            command_mechanism "sudo" ("fail2ban-client" ∷ "set" ∷ jail ∷ "unbanip" ∷ ip ∷ []);
        risk_level = medium;
        reboot_required = false;
        rollback_available = false;
      })
    ]
