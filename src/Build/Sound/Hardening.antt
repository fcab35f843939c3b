-- ===== src/Build/Sound/Hardening.antt =====
-- crates/sysknife-daemon/src/executor.rs: the arms on resolved, AppArmor, cloud-init and fail2ban.
use lacs.Prelude.{String, All, arith}
use lacs.Params.{Std, map_err}
use lacs.Actions.Firewall.{fail2ban_ban_ip, fail2ban_unban_ip}
use lacs.Build.Hardening.{
  resolvectl_arms, apparmor_arms, ubuntu_flatpak_arms, fail2ban_arms, fail2ban_error,
}
use lacs.Build.Sound.{Sound, SoundArm, arm_rules, agrees}
use lacs.Build.Sound.Readers.{readers}

Fail2banBanIp_lem :
    (std : Std) (jail ip : String)
    → Sound "Fail2banBanIp" (map_err fail2ban_error (fail2ban_ban_ip std jail ip))
unfolding agrees fail2ban_ban_ip
Fail2banBanIp_lem std jail ip = record { holds = ground arith }

Fail2banUnbanIp_lem :
    (std : Std) (jail ip : String)
    → Sound "Fail2banUnbanIp" (map_err fail2ban_error (fail2ban_unban_ip std jail ip))
unfolding agrees fail2ban_unban_ip
Fail2banUnbanIp_lem std jail ip = record { holds = ground arith }

pub resolvectl_arms-SoundArm : (std : Std) → All SoundArm (resolvectl_arms std)
unfolding resolvectl_arms agrees
resolvectl_arms-SoundArm std = search (readers, arm_rules) depth 60

pub apparmor_arms-SoundArm : All SoundArm apparmor_arms
unfolding apparmor_arms agrees
apparmor_arms-SoundArm = search (readers, arm_rules) depth 60

pub ubuntu_flatpak_arms-SoundArm : All SoundArm ubuntu_flatpak_arms
unfolding ubuntu_flatpak_arms agrees
ubuntu_flatpak_arms-SoundArm = search (readers, arm_rules) depth 60

pub fail2ban_arms-SoundArm : (std : Std) → All SoundArm (fail2ban_arms std)
unfolding fail2ban_arms agrees
fail2ban_arms-SoundArm std =
    search (readers, arm_rules, Fail2banBanIp_lem, Fail2banUnbanIp_lem) depth 60
