-- ===== src/Build/Sound/Host.antt =====
-- crates/sysknife-daemon/src/executor.rs: the arms on services, the identity of the host and the network.
use lacs.Prelude.{All}
use lacs.Build.Host.{service_arms, identity_arms, network_arms}
use lacs.Build.Sound.{SoundArm, arm_rules, agrees}
use lacs.Build.Sound.Readers.{readers}

pub service_arms-SoundArm : All SoundArm service_arms
unfolding service_arms agrees
service_arms-SoundArm = search (readers, arm_rules) depth 60

pub identity_arms-SoundArm : All SoundArm identity_arms
unfolding identity_arms agrees
identity_arms-SoundArm = search (readers, arm_rules) depth 60

pub network_arms-SoundArm : All SoundArm network_arms
unfolding network_arms agrees
network_arms-SoundArm = search (readers, arm_rules) depth 60
