-- ===== src/Build/Sound/Users.antt =====
-- crates/sysknife-daemon/src/executor.rs: the arms on users and SSH keys.
use lacs.Prelude.{All}
use lacs.Build.Users.{user_arms, ssh_arms}
use lacs.Build.Sound.{SoundArm, arm_rules, agrees}
use lacs.Build.Sound.Readers.{readers}

pub user_arms-SoundArm : All SoundArm user_arms
unfolding user_arms agrees
user_arms-SoundArm = search (readers, arm_rules) depth 60

pub ssh_arms-SoundArm : All SoundArm ssh_arms
unfolding ssh_arms agrees
ssh_arms-SoundArm = search (readers, arm_rules) depth 60
