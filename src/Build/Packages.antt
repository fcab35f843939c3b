-- ===== src/Build/Packages.antt =====
-- crates/sysknife-daemon/src/executor.rs: arms of the `match` in `build_action_spec`, each a name
-- with what it does with the parameters, in the order of the source.
use lacs.Prelude.{false, List, [], ◌∷◌}
use lacs.Executor.{ok, ◌>>=◌}
use lacs.Validate.{validated_ppa_name, validated_safe_arg}
use lacs.Params.{require_str, optional_bool, nonempty_str, validated_optional, unwrap_or, Arm}
use lacs.Actions.Apt.{
  add_ppa, apt_autoremove, apt_history_list, apt_hold, apt_install, apt_list_installed,
  apt_list_upgradable, apt_purge, apt_remove, apt_search, apt_show, apt_unhold, apt_update,
  apt_upgrade, remove_ppa,
}
use lacs.Actions.Snap.{
  snap_classic_install, snap_hold, snap_info, snap_install, snap_list, snap_refresh, snap_remove,
  snap_revert, snap_unhold,
}

unfoldable pub apt_arms : List Arm
apt_arms =
    ("AptUpdate", λ params. ok apt_update)
    ∷ ("AptUpgrade", λ params. ok apt_upgrade)
    ∷ (
      "AptInstall",
      λ params. do
        pkg ← validated_safe_arg (← require_str params "package") "package"
        ok (apt_install pkg),
    )
    ∷ (
      "AptRemove",
      λ params. do
        pkg ← validated_safe_arg (← require_str params "package") "package"
        ok (apt_remove pkg),
    )
    ∷ (
      "AptPurge",
      λ params. do
        pkg ← validated_safe_arg (← require_str params "package") "package"
        ok (apt_purge pkg),
    )
    ∷ ("AptAutoremove", λ params. ok apt_autoremove)
    ∷ (
      "AptHold",
      λ params. do
        pkg ← validated_safe_arg (← require_str params "package") "package"
        ok (apt_hold pkg),
    )
    ∷ (
      "AptUnhold",
      λ params. do
        pkg ← validated_safe_arg (← require_str params "package") "package"
        ok (apt_unhold pkg),
    )
    ∷ (
      "AptSearch",
      λ params. do
        term ← validated_safe_arg (← require_str params "term") "term"
        ok (apt_search term),
    )
    ∷ ("AptListInstalled", λ params. ok apt_list_installed)
    ∷ (
      "AptShow",
      λ params. do
        pkg ← validated_safe_arg (← require_str params "package") "package"
        ok (apt_show pkg),
    )
    ∷ ("AptListUpgradable", λ params. ok apt_list_upgradable)
    ∷ ("AptHistoryList", λ params. ok apt_history_list)
    ∷ []

unfoldable pub ppa_arms : List Arm
ppa_arms =
    (
      "AddPpa",
      λ params. do
        name ← validated_ppa_name (← require_str params "name") "name"
        ok (add_ppa name),
    )
    ∷ (
      "RemovePpa",
      λ params. do
        name ← validated_ppa_name (← require_str params "name") "name"
        ok (remove_ppa name),
    )
    ∷ []

unfoldable pub snap_arms : List Arm
snap_arms =
    (
      "SnapInstall",
      λ params. do
        name ← validated_safe_arg (← require_str params "name") "name"
        channel ←
            validated_optional (λ s. validated_safe_arg s "channel") (nonempty_str params "channel")
        let auto_update = unwrap_or (optional_bool params "auto_update") false
        ok (snap_install name channel auto_update),
    )
    ∷ (
      "SnapRemove",
      λ params. do
        name ← validated_safe_arg (← require_str params "name") "name"
        ok (snap_remove name),
    )
    ∷ (
      "SnapRefresh",
      λ params. do
        name ← validated_optional (λ s. validated_safe_arg s "name") (nonempty_str params "name")
        ok (snap_refresh name),
    )
    ∷ (
      "SnapHold",
      λ params. do
        name ← validated_safe_arg (← require_str params "name") "name"
        ok (snap_hold name),
    )
    ∷ (
      "SnapUnhold",
      λ params. do
        name ← validated_safe_arg (← require_str params "name") "name"
        ok (snap_unhold name),
    )
    ∷ ("SnapList", λ params. ok snap_list)
    ∷ (
      "SnapInfo",
      λ params. do
        name ← validated_safe_arg (← require_str params "name") "name"
        ok (snap_info name),
    )
    ∷ (
      "SnapRevert",
      λ params. do
        name ← validated_safe_arg (← require_str params "name") "name"
        ok (snap_revert name),
    )
    ∷ (
      "SnapClassicInstall",
      λ params. do
        name ← validated_safe_arg (← require_str params "name") "name"
        ok (snap_classic_install name),
    )
    ∷ []
