-- ===== src/Actions/Snap.antt =====
-- crates/sysknife-daemon/src/actions: snap.rs and ubuntu_pro.rs. A constructor gives what an action
-- runs, its risk and its flags.
use lacs.Prelude.{String, Bool, true, false, Option, none, some, [], ◌∷◌, ◌++◌, if◌then◌else◌}
use lacs.Types.{low, medium, high}
use lacs.Executor.{ActionSpec}
use lacs.Params.{unwrap_or}
use lacs.Actions.{command_mechanism, concat}

abbrev pub snap_install : String → Option String → Bool → ActionSpec
snap_install name channel auto_update = record {
  action_name = "SnapInstall";
  mechanism =
      if auto_update
      then command_mechanism "sudo" (
          "snap"
            ∷ "install"
            ∷ (elim channel [ none ↦ [] | some ch ↦ concat ("--channel=" ∷ ch ∷ []) ∷ [] ])
          ++ name ∷ [])
      else (let channel_arg = unwrap_or channel "stable" in
          let cmd = concat (
            "snap install --channel=" ∷ channel_arg ∷ " " ∷ name ∷ " && snap refresh --hold " ∷ name
            ∷ []) in
          command_mechanism "sudo" ("sh" ∷ "-c" ∷ cmd ∷ []));
  risk_level = medium;
  reboot_required = false;
  rollback_available = false;
}

abbrev pub snap_remove : String → ActionSpec
snap_remove name = record {
  action_name = "SnapRemove";
  mechanism = command_mechanism "sudo" ("snap" ∷ "remove" ∷ name ∷ []);
  risk_level = medium;
  reboot_required = false;
  rollback_available = false;
}

abbrev pub snap_refresh : Option String → ActionSpec
snap_refresh name = record {
  action_name = "SnapRefresh";
  mechanism = elim name [
    | some n ↦ command_mechanism "sudo" ("snap" ∷ "refresh" ∷ n ∷ [])
    | none ↦ command_mechanism "sudo" ("snap" ∷ "refresh" ∷ [])
  ];
  risk_level = medium;
  reboot_required = false;
  rollback_available = false;
}

abbrev pub snap_hold : String → ActionSpec
snap_hold name = record {
  action_name = "SnapHold";
  mechanism = command_mechanism "sudo" ("snap" ∷ "refresh" ∷ "--hold" ∷ name ∷ []);
  risk_level = medium;
  reboot_required = false;
  rollback_available = false;
}

abbrev pub snap_unhold : String → ActionSpec
snap_unhold name = record {
  action_name = "SnapUnhold";
  mechanism = command_mechanism "sudo" ("snap" ∷ "refresh" ∷ "--unhold" ∷ name ∷ []);
  risk_level = medium;
  reboot_required = false;
  rollback_available = false;
}

abbrev pub snap_list : ActionSpec
snap_list = record {
  action_name = "SnapList";
  mechanism = command_mechanism "snap" ("list" ∷ []);
  risk_level = low;
  reboot_required = false;
  rollback_available = false;
}

abbrev pub snap_info : String → ActionSpec
snap_info name = record {
  action_name = "SnapInfo";
  mechanism = command_mechanism "snap" ("info" ∷ name ∷ []);
  risk_level = low;
  reboot_required = false;
  rollback_available = false;
}

abbrev pub snap_revert : String → ActionSpec
snap_revert name = record {
  action_name = "SnapRevert";
  mechanism = command_mechanism "sudo" ("snap" ∷ "revert" ∷ name ∷ []);
  risk_level = medium;
  reboot_required = false;
  rollback_available = false;
}

abbrev pub snap_classic_install : String → ActionSpec
snap_classic_install name = record {
  action_name = "SnapClassicInstall";
  mechanism = command_mechanism "sudo" ("snap" ∷ "install" ∷ "--classic" ∷ name ∷ []);
  risk_level = medium;
  reboot_required = false;
  rollback_available = false;
}

abbrev pub pro_status : ActionSpec
pro_status = record {
  action_name = "ProStatus";
  mechanism = command_mechanism "pro" ("status" ∷ "--all" ∷ []);
  risk_level = low;
  reboot_required = false;
  rollback_available = false;
}

abbrev pub pro_attach : String → ActionSpec
pro_attach token = record {
  action_name = "ProAttach";
  mechanism = command_mechanism "sudo" ("pro" ∷ "attach" ∷ token ∷ []);
  risk_level = high;
  reboot_required = false;
  rollback_available = true;
}

abbrev pub pro_detach : ActionSpec
pro_detach = record {
  action_name = "ProDetach";
  mechanism = command_mechanism "sudo" ("pro" ∷ "detach" ∷ "--assume-yes" ∷ []);
  risk_level = high;
  reboot_required = false;
  rollback_available = true;
}
