-- ===== src/Build/Sound/Userland.antt =====
-- crates/sysknife-daemon/src/executor.rs: the arms on Flatpak, containers and toolboxes.
use lacs.Prelude.{All}
use lacs.Build.Userland.{flatpak_arms, container_arms, toolbox_arms}
use lacs.Build.Sound.{SoundArm, arm_rules, agrees}
use lacs.Build.Sound.Readers.{readers}

pub flatpak_arms-SoundArm : All SoundArm flatpak_arms
unfolding flatpak_arms agrees
flatpak_arms-SoundArm = search (readers, arm_rules) depth 60

pub container_arms-SoundArm : All SoundArm container_arms
unfolding container_arms agrees
container_arms-SoundArm = search (readers, arm_rules) depth 60

pub toolbox_arms-SoundArm : All SoundArm toolbox_arms
unfolding toolbox_arms agrees
toolbox_arms-SoundArm = search (readers, arm_rules) depth 60
