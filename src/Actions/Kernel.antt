-- ===== src/Actions/Kernel.antt =====
-- crates/sysknife-daemon/src/actions: grub.rs and apparmor.rs. A constructor gives what an action
-- runs, its risk and its flags.
use lacs.Prelude.{String, Bool, true, false, List, [], ◌∷◌, ◌⊎◌, inl, inr, if◌then◌else◌}
use lacs.Types.{low, medium, high}
use lacs.Executor.{ActionSpec}
use lacs.Actions.{command_mechanism, concat}

abbrev grub_kargs_helper : String
grub_kargs_helper = "/usr/lib/sysknife/grub-kargs-edit"

abbrev pub grub_get_kargs : ActionSpec
grub_get_kargs = record {
  action_name = "GrubGetKargs";
  mechanism = command_mechanism "grep" ("-E" ∷ "^GRUB_CMDLINE_LINUX" ∷ "/etc/default/grub" ∷ []);
  risk_level = low;
  reboot_required = false;
  rollback_available = false;
}

pub data KargsError : Type 0 where
  both_empty : KargsError

-- `join(",")`
abbrev join_commas : List String → String
join_commas [] = ""
join_commas (s ∷ []) = s
join_commas (s ∷ t ∷ ss) = concat (s ∷ "," ∷ join_commas (t ∷ ss) ∷ [])

abbrev none_given : List String → List String → Bool
none_given [] [] = true
none_given _ _ = false

abbrev pub grub_set_kargs : List String → List String → KargsError ⊎ ActionSpec
grub_set_kargs append delete =
    if none_given append delete
    then inl both_empty
    else inr (record {
      action_name = "GrubSetKargs";
      mechanism = command_mechanism "sudo" (
          grub_kargs_helper
          ∷ "--append"
          ∷ join_commas append
          ∷ "--delete"
          ∷ join_commas delete
          ∷ []);
      risk_level = high;
      reboot_required = true;
      rollback_available = true;
    })

abbrev pub apparmor_status : ActionSpec
apparmor_status = record {
  action_name = "AppArmorStatus";
  mechanism = command_mechanism "sudo" ("aa-status" ∷ []);
  risk_level = low;
  reboot_required = false;
  rollback_available = false;
}

abbrev pub apparmor_enforce : String → ActionSpec
apparmor_enforce profile_path = record {
  action_name = "AppArmorEnforce";
  mechanism = command_mechanism "sudo" ("aa-enforce" ∷ profile_path ∷ []);
  risk_level = high;
  reboot_required = false;
  rollback_available = false;
}

abbrev pub apparmor_complain : String → ActionSpec
apparmor_complain profile_path = record {
  action_name = "AppArmorComplain";
  mechanism = command_mechanism "sudo" ("aa-complain" ∷ profile_path ∷ []);
  risk_level = medium;
  reboot_required = false;
  rollback_available = false;
}
