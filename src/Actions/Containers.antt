-- ===== src/Actions/Containers.antt =====
-- crates/sysknife-daemon/src/actions: containers.rs, toolbox.rs and distrobox.rs. A constructor
-- gives what an action runs, its risk and its flags.
use lacs.Prelude.{String, false, Option, none, some, [], ◌∷◌, ◌++◌}
use lacs.Types.{low, medium}
use lacs.Executor.{ActionMechanism, command, ActionSpec}
use lacs.Actions.{command_mechanism, concat}

abbrev podman_as : String → String → ActionMechanism
podman_as username podman_cmd =
    command "sudo" ("runuser" ∷ "-l" ∷ username ∷ "-c" ∷ podman_cmd ∷ [])

abbrev pub list_containers : String → ActionSpec
list_containers username = record {
  action_name = "ListContainers";
  mechanism =
      command_mechanism "sudo"
        ("runuser" ∷ "-l" ∷ username ∷ "-c" ∷ "podman ps --all --format json" ∷ []);
  risk_level = low;
  reboot_required = false;
  rollback_available = false;
}

abbrev pub create_container : String → String → String → ActionSpec
create_container username name image = record {
  action_name = "CreateContainer";
  mechanism =
      podman_as username (concat ("podman create --name '" ∷ name ∷ "' '" ∷ image ∷ "'" ∷ []));
  risk_level = medium;
  reboot_required = false;
  rollback_available = false;
}

abbrev pub start_container : String → String → ActionSpec
start_container username name = record {
  action_name = "StartContainer";
  mechanism = podman_as username (concat ("podman start '" ∷ name ∷ "'" ∷ []));
  risk_level = medium;
  reboot_required = false;
  rollback_available = false;
}

abbrev pub stop_container : String → String → ActionSpec
stop_container username name = record {
  action_name = "StopContainer";
  mechanism = podman_as username (concat ("podman stop '" ∷ name ∷ "'" ∷ []));
  risk_level = medium;
  reboot_required = false;
  rollback_available = false;
}

abbrev pub remove_container : String → String → ActionSpec
remove_container username name = record {
  action_name = "RemoveContainer";
  mechanism = podman_as username (concat ("podman rm '" ∷ name ∷ "'" ∷ []));
  risk_level = medium;
  reboot_required = false;
  rollback_available = false;
}

abbrev pub get_container_info : String → String → ActionSpec
get_container_info username name = record {
  action_name = "GetContainerInfo";
  mechanism = podman_as username (concat ("podman inspect '" ∷ name ∷ "'" ∷ []));
  risk_level = low;
  reboot_required = false;
  rollback_available = false;
}

abbrev toolbox_as : String → String → ActionMechanism
toolbox_as username toolbox_cmd = command "sudo" (
    "runuser"
    ∷ "-l"
    ∷ username
    ∷ "-c"
    ∷ concat ("XDG_RUNTIME_DIR=/run/user/$(id -u) " ∷ toolbox_cmd ∷ [])
    ∷ [])

abbrev pub list_toolboxes : String → ActionSpec
list_toolboxes username = record {
  action_name = "ListToolboxes";
  mechanism = toolbox_as username "toolbox list";
  risk_level = low;
  reboot_required = false;
  rollback_available = false;
}

abbrev pub create_toolbox : String → String → Option String → Option String → ActionSpec
create_toolbox username name release image = record {
  action_name = "CreateToolbox";
  mechanism = toolbox_as username (
      concat (
        "toolbox create --container '"
          ∷ name
          ∷ "'"
          ∷ (elim release [ none ↦ [] | some r ↦ " --release '" ∷ r ∷ "'" ∷ [] ])
        ++ (elim image [ none ↦ [] | some i ↦ " --image '" ∷ i ∷ "'" ∷ [] ])));
  risk_level = medium;
  reboot_required = false;
  rollback_available = false;
}

abbrev pub remove_toolbox : String → String → ActionSpec
remove_toolbox username name = record {
  action_name = "RemoveToolbox";
  mechanism = toolbox_as username (concat ("toolbox rm '" ∷ name ∷ "'" ∷ []));
  risk_level = medium;
  reboot_required = false;
  rollback_available = false;
}

abbrev pub distrobox_list : ActionSpec
distrobox_list = record {
  action_name = "DistroboxList";
  mechanism = command_mechanism "distrobox" ("list" ∷ []);
  risk_level = low;
  reboot_required = false;
  rollback_available = false;
}

abbrev pub distrobox_create : String → String → ActionSpec
distrobox_create name image = record {
  action_name = "DistroboxCreate";
  mechanism =
      command_mechanism "distrobox" ("create" ∷ "--yes" ∷ "--name" ∷ name ∷ "--image" ∷ image ∷ []);
  risk_level = medium;
  reboot_required = false;
  rollback_available = false;
}

abbrev pub distrobox_remove : String → ActionSpec
distrobox_remove name = record {
  action_name = "DistroboxRemove";
  mechanism = command_mechanism "distrobox" ("rm" ∷ "--force" ∷ name ∷ []);
  risk_level = medium;
  reboot_required = false;
  rollback_available = false;
}
