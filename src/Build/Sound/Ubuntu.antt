-- ===== src/Build/Sound/Ubuntu.antt =====
-- crates/sysknife-daemon/src/executor.rs: the arms on GRUB, ufw, distrobox, netplan and Ubuntu Pro.
use lacs.Prelude.{ℕ, String, List, All, arith}
use lacs.Params.{map_err}
use lacs.Executor.{missing_param, invalid_param}
use lacs.Actions.Kernel.{grub_set_kargs}
use lacs.Actions.Firewall.{ufw_delete_rule}
use lacs.Build.Ubuntu.{grub_arms, ufw_arms, distrobox_arms, ufw_tier3_arms, pro_arms}
use lacs.Build.Sound.{Sound, SoundArm, arm_rules, agrees}
use lacs.Build.Sound.Readers.{readers}

GrubSetKargs_lem :
    (append delete : List String)
    → Sound "GrubSetKargs"
        (map_err (λ e. missing_param "append or delete") (grub_set_kargs append delete))
unfolding agrees
GrubSetKargs_lem append delete = record { holds = ground arith }

UfwDeleteRule_lem :
    (n : ℕ) → Sound "UfwDeleteRule" (map_err (λ e. invalid_param "rule_number") (ufw_delete_rule n))
unfolding agrees
UfwDeleteRule_lem n = record { holds = ground arith }

pub grub_arms-SoundArm : All SoundArm grub_arms
unfolding grub_arms agrees
grub_arms-SoundArm = search (readers, arm_rules, GrubSetKargs_lem) depth 60

pub ufw_arms-SoundArm : All SoundArm ufw_arms
unfolding ufw_arms agrees
ufw_arms-SoundArm = search (readers, arm_rules) depth 60

pub distrobox_arms-SoundArm : All SoundArm distrobox_arms
unfolding distrobox_arms agrees
distrobox_arms-SoundArm = search (readers, arm_rules) depth 60

pub ufw_tier3_arms-SoundArm : All SoundArm ufw_tier3_arms
unfolding ufw_tier3_arms agrees
ufw_tier3_arms-SoundArm = search (readers, arm_rules, UfwDeleteRule_lem) depth 60

pub pro_arms-SoundArm : All SoundArm pro_arms
unfolding pro_arms agrees
pro_arms-SoundArm = search (readers, arm_rules) depth 60
