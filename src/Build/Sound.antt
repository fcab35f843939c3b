-- ===== src/Build/Sound.antt =====
-- crates/sysknife-daemon/src/executor.rs: what an arm of `build_action_spec` may return, with a rule
-- for each way an arm is written. The child modules go through the arms.
pub mod Readers
pub mod Ostree
pub mod Userland
pub mod Host
pub mod Users
pub mod Packages
pub mod Ubuntu
pub mod Hardening
use lacs.Prelude.{
  String, ◌≡◌, ◌≢◌, refl, Bool, true, false, ◌&&◌, Option, none, some, List, [], ◌∷◌, str_eq, leb,
  ltb, not, contains, ◌⊎◌, inl, inr, if◌then◌else◌, All,
}
use lacs.Json.{Value}
use lacs.Auth.{role_rank}
use lacs.Policy.Allowlist.{observer_actions, dev_actions, admin_actions}
use lacs.Policy.{min_role_for_action, role_for_risk_level}
use lacs.Executor.{
  ActionSpec, ExecutorError, unknown_action, missing_param, invalid_param, invalid_ip_address,
  Result, ok, err, ◌>>=◌, ok_or, transpose,
}
use lacs.Validate.{accept}
use lacs.Params.{Arm, map_err, validated_each, validated_optional, guard_nonempty}
use lacs.Preview.{preview_profile}
use lacs.Build.{rollback_spec_for}

-- The policy asks at least the role that the risk level of the action asks.
unfoldable pub covers : String → ActionSpec → Bool
unfolding min_role_for_action role_for_risk_level role_rank observer_actions dev_actions
    admin_actions
covers name spec = elim (min_role_for_action name) [
  | none ↦ false
  | some r ↦ leb (role_rank (role_for_risk_level spec.risk_level)) (role_rank r)
]

-- An action that is rolled back says so, and that it needs a reboot.
unfoldable pub announces : String → ActionSpec → Bool
unfolding rollback_spec_for
announces name spec = elim (rollback_spec_for name) [
  | none ↦ true
  | some rollback ↦ spec.rollback_available && spec.reboot_required
]

-- The actions whose preview shows a lower risk than the executor builds.
abbrev pub understated : List String
understated =
    "SetDnsServers" ∷ "ConfigureFirewall" ∷ "AddPackageRepository" ∷ "MaskService" ∷ "CreateUser"
    ∷ []

-- Whether the preview shows a lower risk, or no reboot where there is one.
unfoldable pub lower_risk : String → ActionSpec → Bool
unfolding preview_profile role_for_risk_level role_rank
lower_risk name spec =
    ltb (role_rank (role_for_risk_level (preview_profile name).risk_level))
      (role_rank (role_for_risk_level spec.risk_level))

unfoldable pub hides_reboot : String → ActionSpec → Bool
unfolding preview_profile
hides_reboot name spec = spec.reboot_required && not (preview_profile name).reboot_required

unfoldable pub same : Bool → Bool → Bool
same true b = b
same false b = not b

unfoldable pub discloses : String → ActionSpec → Bool
unfolding lower_risk hides_reboot same
discloses name spec =
    same (lower_risk name spec) (contains understated name)
    && same (hides_reboot name spec) (str_eq "GrubSetKargs" name)

-- What a built action agrees on with the name it was asked by, the policy, the rollback and the
-- preview.
unfoldable pub agrees : String → ActionSpec → Bool
unfolding covers announces discloses
agrees name spec =
    str_eq spec.action_name name && covers name spec && announces name spec && discloses name spec

-- An error of the parameters.
abbrev pub IsParamError : ExecutorError → Type 0
IsParamError (unknown_action _) = ⊥
IsParamError _ = Unit

abbrev ErrorsOf {ℓ} : {A : Type ℓ} → Result A → Type 0
ErrorsOf (ok a) = Unit
ErrorsOf (err e) = IsParamError e

abbrev pub SpecOf : String → Result ActionSpec → Type 0
SpecOf name (ok s) = agrees name s ≡ true
SpecOf name (err e) = IsParamError e

-- Only errors of the parameters come out.
pub record Reads {ℓ} {A : Type ℓ} (r : Result A) : Type 0 where
  pub holds : ErrorsOf r

-- What an arm for `name` may return.
pub record Sound (name : String) (r : Result ActionSpec) : Type 0 where
  pub holds : SpecOf name r

module _ {ℓ} {A : Type ℓ} where
  pub Reads-ok : (a : A) → Reads (ok a)
  Reads-ok a = record { holds = tt }

  pub Reads-missing : (key : String) → Reads {A = A} (err (missing_param key))
  Reads-missing key = record { holds = tt }

  pub Reads-invalid : (key : String) → Reads {A = A} (err (invalid_param key))
  Reads-invalid key = record { holds = tt }

  pub Reads-address : (key value : String) → Reads {A = A} (err (invalid_ip_address key value))
  Reads-address key value = record { holds = tt }

  pub Reads-if : (b : Bool) (m n : Result A) → Reads m → Reads n → Reads (if b then m else n)
  Reads-if true m n hm hn = hm
  Reads-if false m n hm hn = hn

  pub Reads-ok_or : (o : Option A) (e : ExecutorError) → Reads {A = A} (err e) → Reads (ok_or o e)
  Reads-ok_or none e h = h
  Reads-ok_or (some a) e h = Reads-ok a

  pub Reads-transpose : (r : Result A) → Reads r → Reads (transpose (some r))
  Reads-transpose (ok a) h = record { holds = tt }
  Reads-transpose (err e) h = record { holds = h.holds }

module _ {ℓ κ} {A : Type ℓ} {B : Type κ} where
  pub Reads-bind :
      (m : Result A) (f : A → Result B) → Reads m → ((a : A) → Reads (f a)) → Reads (m >>= f)
  Reads-bind (ok a) f hm hf = hf a
  Reads-bind (err e) f hm hf = record { holds = hm.holds }

pub Reads-accept : (good : Bool) (s param : String) → Reads (accept good s param)
Reads-accept true s param = Reads-ok s
Reads-accept false s param = Reads-invalid param

pub ruleset reads_rules = (
  Reads-ok, Reads-missing, Reads-invalid, Reads-address, Reads-if, Reads-ok_or, Reads-bind,
  Reads-accept,
)

pub Sound-ok : (name : String) (s : ActionSpec) → agrees name s ≡ true → Sound name (ok s)
Sound-ok name s h = record { holds = h }

module _ {ℓ} {A : Type ℓ} where
  pub Sound-bind :
      (name : String) (m : Result A) (f : A → Result ActionSpec)
      → Reads m
      → ((a : A) → Sound name (f a))
      → Sound name (m >>= f)
  Sound-bind name (ok a) f hm hf = hf a
  Sound-bind name (err e) f hm hf = record { holds = hm.holds }

-- The parameters of an arm are arbitrary.
pub record SoundArm (arm : Arm) : Type 0 where
  pub at : (params : Value) → Sound arm.0 (arm.1 params)

pub SoundArm-at :
    (name : String) (arm : Value → Result ActionSpec)
    → ((params : Value) → Sound name (arm params))
    → SoundArm (name, arm)
SoundArm-at name arm h = record { at = h }

pub All-nil : All SoundArm []
All-nil = tt

pub All-cons :
    (arm : Arm) (arms : List Arm) → SoundArm arm → All SoundArm arms → All SoundArm (arm ∷ arms)
All-cons arm arms h hs = (h, hs)

pub ruleset arm_rules = (Sound-ok, Sound-bind, refl, SoundArm-at, All-nil, All-cons)
