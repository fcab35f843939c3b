-- ===== src/Actions/Users.antt =====
-- crates/sysknife-daemon/src/actions: users.rs and ssh.rs. A constructor gives what an action runs,
-- its risk and its flags.
use lacs.Prelude.{String, false, Option, none, some, [], ◌∷◌, ◌++◌}
use lacs.Types.{low, medium, high}
use lacs.Executor.{command, ActionSpec}
use lacs.Actions.{command_mechanism, concat}

abbrev pub list_users : ActionSpec
list_users = record {
  action_name = "ListUsers";
  mechanism = command_mechanism "getent" ("passwd" ∷ []);
  risk_level = low;
  reboot_required = false;
  rollback_available = false;
}

abbrev pub list_groups : ActionSpec
list_groups = record {
  action_name = "ListGroups";
  mechanism = command_mechanism "getent" ("group" ∷ []);
  risk_level = low;
  reboot_required = false;
  rollback_available = false;
}

abbrev pub create_user : String → Option String → Option String → ActionSpec
create_user username shell home = record {
  action_name = "CreateUser";
  mechanism = command "sudo" (
      "useradd" ∷ "--create-home" ∷ (elim home [ none ↦ [] | some h ↦ "--home-dir" ∷ h ∷ [] ])
      ++ (elim shell [ none ↦ [] | some s ↦ "--shell" ∷ s ∷ [] ])
      ++ username ∷ []);
  risk_level = high;
  reboot_required = false;
  rollback_available = false;
}

abbrev pub delete_user : String → ActionSpec
delete_user username = record {
  action_name = "DeleteUser";
  mechanism = command_mechanism "sudo" ("userdel" ∷ username ∷ []);
  risk_level = high;
  reboot_required = false;
  rollback_available = false;
}

abbrev pub add_user_to_group : String → String → ActionSpec
add_user_to_group username group = record {
  action_name = "AddUserToGroup";
  mechanism = command_mechanism "sudo" (
      "sh"
      ∷ "-c"
      ∷ (concat (
          "grep -q '^" ∷ group ∷ ":' /etc/group || getent group '" ∷ group
          ∷ "' >> /etc/group; usermod --append --groups '" ∷ group ∷ "' '" ∷ username ∷ "'" ∷ []))
      ∷ []);
  risk_level = high;
  reboot_required = false;
  rollback_available = false;
}

abbrev pub remove_user_from_group : String → String → ActionSpec
remove_user_from_group username group = record {
  action_name = "RemoveUserFromGroup";
  mechanism = command_mechanism "sudo" (
      "sh"
      ∷ "-c"
      ∷ (concat (
          "grep -q '^" ∷ group ∷ ":' /etc/group || getent group '" ∷ group
          ∷ "' >> /etc/group; gpasswd --delete '" ∷ username ∷ "' '" ∷ group ∷ "'" ∷ []))
      ∷ []);
  risk_level = high;
  reboot_required = false;
  rollback_available = false;
}

abbrev pub get_authorized_keys : String → ActionSpec
get_authorized_keys username = record {
  action_name = "GetAuthorizedKeys";
  mechanism =
      command_mechanism "cat" ((concat ("/home/" ∷ username ∷ "/.ssh/authorized_keys" ∷ [])) ∷ []);
  risk_level = low;
  reboot_required = false;
  rollback_available = false;
}

abbrev pub add_authorized_key : String → String → ActionSpec
add_authorized_key username public_key = record {
  action_name = "AddAuthorizedKey";
  mechanism = command "sudo" (
      "sh"
      ∷ "-c"
      ∷ (concat (
          "grep -Fxq '"
          ∷ public_key
          ∷ "' '"
          ∷ (concat ("/home/" ∷ username ∷ "/.ssh/authorized_keys" ∷ []))
          ∷ "' 2>/dev/null || echo '"
          ∷ public_key
          ∷ "' >> '"
          ∷ (concat ("/home/" ∷ username ∷ "/.ssh/authorized_keys" ∷ []))
          ∷ "'"
          ∷ []))
      ∷ []);
  risk_level = medium;
  reboot_required = false;
  rollback_available = false;
}

abbrev pub remove_authorized_key : String → String → ActionSpec
remove_authorized_key username public_key = record {
  action_name = "RemoveAuthorizedKey";
  mechanism = command "sudo" (
      "sh"
      ∷ "-c"
      ∷ (concat (
          "sed -i '\\|^"
          ∷ public_key
          ∷ "$|d' '"
          ∷ (concat ("/home/" ∷ username ∷ "/.ssh/authorized_keys" ∷ []))
          ∷ "'"
          ∷ []))
      ∷ []);
  risk_level = medium;
  reboot_required = false;
  rollback_available = false;
}
