-- ===== src/Preview/Shown.antt =====
-- What crates/sysknife-daemon/src/preview.rs shows of an action, against what executor.rs builds and
-- can roll back.
use lacs.Prelude.{
  ℕ, String, ◌≡◌, ◌↔◌, ◌<◌, Bool, true, false, ◌&&◌, ◌||◌, not, List, [], ◌∷◌, contains, str_eq,
  eq_iff, ltb, arith,
}
use lacs.Json.{Value}
use lacs.Types.{RequestEnvelope}
use lacs.Auth.{role_rank}
use lacs.Policy.{role_for_risk_level}
use lacs.Executor.{ActionSpec, ok}
use lacs.Params.{Std}
use lacs.Build.{build_action_spec, rollback_names}
use lacs.Build.Sound.{discloses, lower_risk, hides_reboot, understated, same}
use lacs.Build.Catalogue.{built_agrees}
use lacs.Build.Guarded.{agrees_lem}
use lacs.Preview.{preview_profile, preview_action}

same_both : (a b c d : Bool) → (same a b && same c d) ≡ true → (a ≡ b) × (c ≡ d)
unfolding same
same_both a b c d h = ground arith

disclosed_lem :
    (name : String) (spec : ActionSpec)
    → discloses name spec ≡ true
    → (lower_risk name spec ≡ contains understated name)
      × (hides_reboot name spec ≡ str_eq "GrubSetKargs" name)
unfolding discloses
disclosed_lem name spec h = same_both _ _ _ _ h

lt_iff : (a b : ℕ) (t : Bool) → ltb a b ≡ t → (a < b) ↔ (t ≡ true)
lt_iff a b t h = ground arith

hidden_iff :
    (a b : Bool) (s t : String) → (a && not b) ≡ str_eq s t → ((a ≡ true) × (b ≡ false)) ↔ (s ≡ t)
hidden_iff a b s t h = ground (arith, eq_iff s t)

lower_risk_iff :
    (name : String) (spec : ActionSpec)
    → lower_risk name spec ≡ contains understated name
    → (role_rank (role_for_risk_level (preview_profile name).risk_level)
        < role_rank (role_for_risk_level spec.risk_level))
      ↔ (contains understated name ≡ true)
unfolding lower_risk
lower_risk_iff name spec e = lt_iff _ _ _ e

hides_reboot_iff :
    (name : String) (spec : ActionSpec)
    → hides_reboot name spec ≡ str_eq "GrubSetKargs" name
    → ((spec.reboot_required ≡ true) × ((preview_profile name).reboot_required ≡ false))
      ↔ ("GrubSetKargs" ≡ name)
unfolding hides_reboot
hides_reboot_iff name spec e = hidden_iff _ _ _ _ e

-- A preview shows a lower risk than the action that is then built exactly for the names in
-- `understated`, and it shows no reboot for an action that needs one exactly for `GrubSetKargs`.
pub preview_action-risk :
    (std : Std) (request : RequestEnvelope) (state change : Value) (spec : ActionSpec)
    → build_action_spec std request.action_name request.params ≡ ok spec
    → (let shown = preview_action request state change in
        ((role_rank (role_for_risk_level shown.risk_level)
            < role_rank (role_for_risk_level spec.risk_level))
          ↔ (contains understated request.action_name ≡ true))
        × (((spec.reboot_required ≡ true) × (shown.reboot_required ≡ false))
            ↔ ("GrubSetKargs" ≡ request.action_name)))
unfolding preview_action
preview_action-risk std request state change spec built =
    let name = request.action_name in
    let (risk, reboot) =
      disclosed_lem name spec
        (agrees_lem name spec (built_agrees std name request.params spec built)).3 in
    (lower_risk_iff name spec risk, hides_reboot_iff name spec reboot)

abbrev pub no_rollback_spec : List String
no_rollback_spec = "RollbackDeployment" ∷ "NetplanSet" ∷ "ProAttach" ∷ "ProDetach" ∷ []

flag_is : String → Bool
flag_is name =
    same (preview_profile name).rollback_available
      (contains rollback_names name || contains no_rollback_spec name)
