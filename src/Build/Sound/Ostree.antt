-- ===== src/Build/Sound/Ostree.antt =====
-- crates/sysknife-daemon/src/executor.rs: the arms on deployments, layered packages and repositories.
use lacs.Prelude.{All}
use lacs.Params.{Std}
use lacs.Build.Ostree.{deployment_arms, layering_arms, repository_arms}
use lacs.Build.Sound.{SoundArm, arm_rules, agrees}
use lacs.Build.Sound.Readers.{readers}

pub deployment_arms-SoundArm : (std : Std) → All SoundArm (deployment_arms std)
unfolding deployment_arms agrees
deployment_arms-SoundArm std = search (readers, arm_rules) depth 60

pub layering_arms-SoundArm : All SoundArm layering_arms
unfolding layering_arms agrees
layering_arms-SoundArm = search (readers, arm_rules) depth 60

pub repository_arms-SoundArm : All SoundArm repository_arms
unfolding repository_arms agrees
repository_arms-SoundArm = search (readers, arm_rules) depth 60
