-- ===== src/Build/Catalogue.antt =====
-- crates/sysknife-daemon/src/executor.rs: which names `build_action_spec` knows, and what it returns
-- for them.
use lacs.Prelude.{
  String, ◌≡◌, ◌↔◌, ◌⊎◌, inl, inr, refl, sym, subst, ◌∙◌, Bool, true, false, List, [], ◌∷◌, map,
  contains, all, All, All-append, str_eq, eq_iff, contains_of_all, same_of_iff, not, ◌&&◌, arith,
  Bool-cases,
}
use lacs.Json.{Value}
use lacs.Types.Actions.{known_action_names}
use lacs.Executor.{ActionSpec, ExecutorError, Result, ok, err, unknown_action}
use lacs.Params.{Std, Arm}
use lacs.Build.{dispatch, arms, build_action_spec}
use lacs.Build.Ostree.{deployment_arms, layering_arms, repository_arms}
use lacs.Build.Userland.{flatpak_arms, container_arms, toolbox_arms}
use lacs.Build.Host.{service_arms, identity_arms, network_arms}
use lacs.Build.Users.{user_arms, ssh_arms}
use lacs.Build.Packages.{apt_arms, ppa_arms, snap_arms}
use lacs.Build.Ubuntu.{grub_arms, ufw_arms, distrobox_arms, ufw_tier3_arms, pro_arms}
use lacs.Build.Hardening.{resolvectl_arms, apparmor_arms, ubuntu_flatpak_arms, fail2ban_arms}
use lacs.Build.Sound.{Sound, SoundArm, SpecOf, agrees}
use lacs.Build.Sound.Ostree.{
  deployment_arms-SoundArm, layering_arms-SoundArm, repository_arms-SoundArm,
}
use lacs.Build.Sound.Userland.{
  flatpak_arms-SoundArm, container_arms-SoundArm, toolbox_arms-SoundArm,
}
use lacs.Build.Sound.Host.{service_arms-SoundArm, identity_arms-SoundArm, network_arms-SoundArm}
use lacs.Build.Sound.Users.{user_arms-SoundArm, ssh_arms-SoundArm}
use lacs.Build.Sound.Packages.{apt_arms-SoundArm, ppa_arms-SoundArm, snap_arms-SoundArm}
use lacs.Build.Sound.Ubuntu.{
  grub_arms-SoundArm, ufw_arms-SoundArm, distrobox_arms-SoundArm, ufw_tier3_arms-SoundArm,
  pro_arms-SoundArm,
}
use lacs.Build.Sound.Hardening.{
  resolvectl_arms-SoundArm, apparmor_arms-SoundArm, ubuntu_flatpak_arms-SoundArm,
  fail2ban_arms-SoundArm,
}

abbrev names : List Arm → List String
names = map (λ arm. arm.0)

dispatch-Sound :
    (xs : List Arm) (name : String) (params : Value)
    → All SoundArm xs
    → contains (names xs) name ≡ true
    → Sound name (dispatch xs name params)
unfolding dispatch
dispatch-Sound [] name params h known = absurd (ground arith)
dispatch-Sound ((n, arm) ∷ xs) name params h known = elim (Bool-cases (str_eq n name)) [
  | inl same ↦ rw same (subst (λ m. Sound m (arm params)) ((eq_iff n name).0 same) (h.0.at params))
  | inr other ↦ rw other (dispatch-Sound xs name params h.1 (ground arith))
]

dispatch_unknown :
    (xs : List Arm) (name : String) (params : Value)
    → contains (names xs) name ≡ false
    → dispatch xs name params ≡ err (unknown_action name)
unfolding dispatch
dispatch_unknown [] name params h = refl
dispatch_unknown ((n, arm) ∷ xs) name params h = ground (arith, dispatch_unknown xs name params)

ok_or_err : {a : ActionSpec} {e : ExecutorError} → ¬ (Result.ok a ≡ err e)
ok_or_err h = ground arith

-- The names of the arms are those of the catalogue, less `ListJobHistory`.
arm_names_lem :
    (std : Std)
    → (all (contains known_action_names) (names (arms std)) ≡ true)
      × (all (contains ("ListJobHistory" ∷ names (arms std))) known_action_names ≡ true)
      × (contains (names (arms std)) "ListJobHistory" ≡ false)
unfolding arms known_action_names deployment_arms flatpak_arms container_arms layering_arms
    repository_arms service_arms toolbox_arms identity_arms network_arms user_arms ssh_arms apt_arms
    ppa_arms snap_arms grub_arms ufw_arms distrobox_arms ufw_tier3_arms pro_arms resolvectl_arms
    apparmor_arms ubuntu_flatpak_arms fail2ban_arms
arm_names_lem std = (refl, refl, refl)

arms-SoundArm : (std : Std) → All SoundArm (arms std)
unfolding arms
arms-SoundArm std =
    search
      (
        All-append, deployment_arms-SoundArm, flatpak_arms-SoundArm, container_arms-SoundArm,
        layering_arms-SoundArm, repository_arms-SoundArm, service_arms-SoundArm,
        toolbox_arms-SoundArm, identity_arms-SoundArm, network_arms-SoundArm, user_arms-SoundArm,
        ssh_arms-SoundArm, apt_arms-SoundArm, ppa_arms-SoundArm, snap_arms-SoundArm,
        grub_arms-SoundArm, ufw_arms-SoundArm, distrobox_arms-SoundArm, ufw_tier3_arms-SoundArm,
        pro_arms-SoundArm, resolvectl_arms-SoundArm, apparmor_arms-SoundArm,
        ubuntu_flatpak_arms-SoundArm, fail2ban_arms-SoundArm,
      )
      depth 60

unfoldable executable : String → Bool
executable name = contains known_action_names name && not (str_eq "ListJobHistory" name)

arm_names-executable :
    (std : Std) (name : String) → contains (names (arms std)) name ≡ executable name
unfolding executable
arm_names-executable std name =
    same_of_iff _ _
      (λ h. ground (
        arith,
        contains_of_all (names (arms std)) known_action_names name (arm_names_lem std).0,
        eq_iff "ListJobHistory" name,
        (arm_names_lem std).2,
      ))
      (λ h. ground (
        arith,
        contains_of_all known_action_names ("ListJobHistory" ∷ names (arms std)) name
            (arm_names_lem std).1,
      ))

-- Whatever is built agrees with its name, the policy and the rollback.
pub built_agrees :
    (std : Std) (name : String) (params : Value) (spec : ActionSpec)
    → build_action_spec std name params ≡ ok spec
    → agrees name spec ≡ true
unfolding build_action_spec
built_agrees std name params spec built = elim (Bool-cases (contains (names (arms std)) name)) [
  | inl known ↦
      subst (SpecOf name) built
        (dispatch-Sound (arms std) name params (arms-SoundArm std) known).holds
  | inr unknown ↦ absurd (ok_or_err (sym built ∙ dispatch_unknown (arms std) name params unknown))
]

unknown_of_not_executable :
    (name : String)
    → executable name ≡ false
    → (contains known_action_names name ≡ false) ⊎ (name ≡ "ListJobHistory")
unfolding executable
unknown_of_not_executable name h = ground (arith, eq_iff "ListJobHistory" name)

not_executable :
    (name : String)
    → (contains known_action_names name ≡ false) ⊎ (name ≡ "ListJobHistory")
    → executable name ≡ false
unfolding executable
not_executable name h = ground (arith, eq_iff "ListJobHistory" name)

-- `build_action_spec` answers that an action is unknown exactly for the names that the catalogue does
-- not have, and for `ListJobHistory`, which the dispatcher answers itself.
pub build_action_spec-unknown_iff :
    (std : Std) (name : String) (params : Value)
    → (build_action_spec std name params ≡ err (unknown_action name))
      ↔ ((contains known_action_names name ≡ false) ⊎ (name ≡ "ListJobHistory"))
unfolding build_action_spec executable
build_action_spec-unknown_iff std name params = (
  λ h. elim (Bool-cases (executable name)) [
    | inl built ↦ absurd (
        subst (SpecOf name) h
          (dispatch-Sound (arms std) name params (arms-SoundArm std)
            (arm_names-executable std name ∙ built)).holds)
    | inr not_built ↦ unknown_of_not_executable name not_built
  ],
  λ h.
      dispatch_unknown (arms std) name params
        (arm_names-executable std name ∙ not_executable name h),
)
