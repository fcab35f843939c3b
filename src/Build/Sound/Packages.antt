-- ===== src/Build/Sound/Packages.antt =====
-- crates/sysknife-daemon/src/executor.rs: the arms on apt, PPAs and snaps.
use lacs.Prelude.{All}
use lacs.Build.Packages.{apt_arms, ppa_arms, snap_arms}
use lacs.Build.Sound.{SoundArm, arm_rules, agrees}
use lacs.Build.Sound.Readers.{readers}

pub apt_arms-SoundArm : All SoundArm apt_arms
unfolding apt_arms agrees
apt_arms-SoundArm = search (readers, arm_rules) depth 60

pub ppa_arms-SoundArm : All SoundArm ppa_arms
unfolding ppa_arms agrees
ppa_arms-SoundArm = search (readers, arm_rules) depth 60

pub snap_arms-SoundArm : All SoundArm snap_arms
unfolding snap_arms agrees
snap_arms-SoundArm = search (readers, arm_rules) depth 60
