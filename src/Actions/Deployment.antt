-- ===== src/Actions/Deployment.antt =====
-- crates/sysknife-daemon/src/actions: deployment.rs. A constructor gives what an action runs, its
-- risk and its flags.
use lacs.Prelude.{ℕ, String, true, false, List, [], ◌∷◌, ◌++◌, map}
use lacs.Types.{low, high}
use lacs.Executor.{command, ActionSpec}
use lacs.Actions.{command_mechanism, concat, u32_to_string}

abbrev pub get_system_state : ActionSpec
get_system_state = record {
  action_name = "GetSystemState";
  mechanism = command_mechanism "rpm-ostree" ("status" ∷ "--json" ∷ []);
  risk_level = low;
  reboot_required = false;
  rollback_available = false;
}

abbrev pub collect_diagnostics : ActionSpec
collect_diagnostics = record {
  action_name = "CollectDiagnostics";
  mechanism = command_mechanism "journalctl" ("-b" ∷ "-n" ∷ "500" ∷ "--no-pager" ∷ []);
  risk_level = low;
  reboot_required = false;
  rollback_available = false;
}

abbrev pub get_deployment_history : ActionSpec
get_deployment_history = record {
  action_name = "GetDeploymentHistory";
  mechanism = command_mechanism "rpm-ostree" ("status" ∷ "--json" ∷ []);
  risk_level = low;
  reboot_required = false;
  rollback_available = false;
}

abbrev pub list_deployments : ActionSpec
list_deployments = record {
  action_name = "ListDeployments";
  mechanism = command_mechanism "rpm-ostree" ("status" ∷ "--json" ∷ []);
  risk_level = low;
  reboot_required = false;
  rollback_available = false;
}

abbrev pub update_system : ActionSpec
update_system = record {
  action_name = "UpdateSystem";
  mechanism = command_mechanism "sudo" ("rpm-ostree" ∷ "upgrade" ∷ []);
  risk_level = high;
  reboot_required = true;
  rollback_available = true;
}

abbrev pub pin_deployment : ℕ → ActionSpec
pin_deployment index = record {
  action_name = "PinDeployment";
  mechanism = command "sudo" ("ostree" ∷ "admin" ∷ "pin" ∷ (u32_to_string index) ∷ []);
  risk_level = high;
  reboot_required = false;
  rollback_available = false;
}

abbrev pub unpin_deployment : ℕ → ActionSpec
unpin_deployment index = record {
  action_name = "UnpinDeployment";
  mechanism = command "sudo" ("ostree" ∷ "admin" ∷ "pin" ∷ "--unpin" ∷ (u32_to_string index) ∷ []);
  risk_level = high;
  reboot_required = false;
  rollback_available = false;
}

abbrev pub rebase_system : String → ActionSpec
rebase_system target_ref = record {
  action_name = "RebaseSystem";
  mechanism = command_mechanism "sudo" ("rpm-ostree" ∷ "rebase" ∷ target_ref ∷ []);
  risk_level = high;
  reboot_required = true;
  rollback_available = true;
}

abbrev pub cleanup_deployments : ActionSpec
cleanup_deployments = record {
  action_name = "CleanupDeployments";
  mechanism = command_mechanism "sudo" ("rpm-ostree" ∷ "cleanup" ∷ "--rollback" ∷ "--pending" ∷ []);
  risk_level = high;
  reboot_required = false;
  rollback_available = false;
}

abbrev pub reboot_system : ActionSpec
reboot_system = record {
  action_name = "RebootSystem";
  mechanism = command_mechanism "sudo" ("systemctl" ∷ "reboot" ∷ []);
  risk_level = high;
  reboot_required = true;
  rollback_available = false;
}

abbrev pub rollback_deployment : ActionSpec
rollback_deployment = record {
  action_name = "RollbackDeployment";
  mechanism = command_mechanism "sudo" ("rpm-ostree" ∷ "rollback" ∷ []);
  risk_level = high;
  reboot_required = true;
  rollback_available = false;
}

abbrev pub get_kernel_arguments : ActionSpec
get_kernel_arguments = record {
  action_name = "GetKernelArguments";
  mechanism = command_mechanism "rpm-ostree" ("kargs" ∷ []);
  risk_level = low;
  reboot_required = false;
  rollback_available = false;
}

abbrev pub set_kernel_arguments : List String → List String → ActionSpec
set_kernel_arguments args_to_add args_to_remove = record {
  action_name = "SetKernelArguments";
  mechanism = command "sudo" (
      "rpm-ostree" ∷ "kargs" ∷ map (λ a. concat ("--append=" ∷ a ∷ [])) args_to_add
      ++ map (λ a. concat ("--delete=" ∷ a ∷ [])) args_to_remove);
  risk_level = high;
  reboot_required = true;
  rollback_available = true;
}
