-- ===== src/Build/Userland.antt =====
-- crates/sysknife-daemon/src/executor.rs: arms of the `match` in `build_action_spec`, each a name
-- with what it does with the parameters, in the order of the source.
use lacs.Prelude.{List, [], ◌∷◌}
use lacs.Executor.{ok, ◌>>=◌}
use lacs.Validate.{validated_username, validated_safe_arg}
use lacs.Params.{
  require_str, resolve_username, optional_str, nonempty_str, validated_optional, unwrap_or, Arm,
}
use lacs.Actions.Containers.{
  create_container, create_toolbox, get_container_info, list_containers, list_toolboxes,
  remove_container, remove_toolbox, start_container, stop_container,
}
use lacs.Actions.Flatpak.{
  add_flatpak_remote, get_flatpak_app_info, install_flatpak, list_flatpak_remotes,
  list_installed_flatpaks, remove_flatpak, remove_flatpak_remote, search_flatpak_apps,
  update_flatpak,
}

unfoldable pub flatpak_arms : List Arm
flatpak_arms =
    (
      "ListFlatpakRemotes",
      λ params. do
        username ← validated_username (← resolve_username params) "username"
        ok (list_flatpak_remotes username),
    )
    ∷ (
      "InstallFlatpak",
      λ params. do
        username ← validated_username (← resolve_username params) "username"
        app_id ← validated_safe_arg (← require_str params "app_id") "app_id"
        let remote = unwrap_or (optional_str params "remote") "flathub"
        remote ← validated_safe_arg remote "remote"
        ok (install_flatpak username app_id remote),
    )
    ∷ (
      "RemoveFlatpak",
      λ params. do
        username ← validated_username (← resolve_username params) "username"
        app_id ← validated_safe_arg (← require_str params "app_id") "app_id"
        ok (remove_flatpak username app_id),
    )
    ∷ (
      "SearchFlatpakApps",
      λ params. do
        term ← validated_safe_arg (← require_str params "term") "term"
        ok (search_flatpak_apps term),
    )
    ∷ (
      "AddFlatpakRemote",
      λ params. do
        username ← validated_username (← resolve_username params) "username"
        remote ← validated_safe_arg (← require_str params "remote") "remote"
        url ← validated_safe_arg (← require_str params "url") "url"
        ok (add_flatpak_remote username remote url),
    )
    ∷ (
      "RemoveFlatpakRemote",
      λ params. do
        username ← validated_username (← resolve_username params) "username"
        remote ← validated_safe_arg (← require_str params "remote") "remote"
        ok (remove_flatpak_remote username remote),
    )
    ∷ (
      "GetFlatpakAppInfo",
      λ params. do
        username ← validated_username (← resolve_username params) "username"
        app_id ← validated_safe_arg (← require_str params "app_id") "app_id"
        ok (get_flatpak_app_info username app_id),
    )
    ∷ (
      "ListInstalledFlatpaks",
      λ params. do
        username ← validated_username (← resolve_username params) "username"
        ok (list_installed_flatpaks username),
    )
    ∷ (
      "UpdateFlatpak",
      λ params. do
        username ← validated_username (← resolve_username params) "username"
        app_id ←
            validated_optional (λ s. validated_safe_arg s "app_id") (nonempty_str params "app_id")
        ok (update_flatpak username app_id),
    )
    ∷ []

unfoldable pub container_arms : List Arm
container_arms =
    (
      "ListContainers",
      λ params. do
        username ← validated_username (← resolve_username params) "username"
        ok (list_containers username),
    )
    ∷ (
      "CreateContainer",
      λ params. do
        username ← validated_username (← resolve_username params) "username"
        name ← validated_safe_arg (← require_str params "name") "name"
        image ← validated_safe_arg (← require_str params "image") "image"
        ok (create_container username name image),
    )
    ∷ (
      "StartContainer",
      λ params. do
        username ← validated_username (← resolve_username params) "username"
        name ← validated_safe_arg (← require_str params "name") "name"
        ok (start_container username name),
    )
    ∷ (
      "StopContainer",
      λ params. do
        username ← validated_username (← resolve_username params) "username"
        name ← validated_safe_arg (← require_str params "name") "name"
        ok (stop_container username name),
    )
    ∷ (
      "RemoveContainer",
      λ params. do
        username ← validated_username (← resolve_username params) "username"
        name ← validated_safe_arg (← require_str params "name") "name"
        ok (remove_container username name),
    )
    ∷ (
      "GetContainerInfo",
      λ params. do
        username ← validated_username (← resolve_username params) "username"
        name ← validated_safe_arg (← require_str params "name") "name"
        ok (get_container_info username name),
    )
    ∷ []

unfoldable pub toolbox_arms : List Arm
toolbox_arms =
    (
      "ListToolboxes",
      λ params. do
        username ← validated_username (← resolve_username params) "username"
        ok (list_toolboxes username),
    )
    ∷ (
      "CreateToolbox",
      λ params. do
        username ← validated_username (← resolve_username params) "username"
        name ← validated_safe_arg (← require_str params "name") "name"
        image ← validated_optional (λ s. validated_safe_arg s "image") (optional_str params "image")
        release ←
            validated_optional (λ s. validated_safe_arg s "release") (optional_str params "release")
        ok (create_toolbox username name release image),
    )
    ∷ (
      "RemoveToolbox",
      λ params. do
        username ← validated_username (← resolve_username params) "username"
        name ← validated_safe_arg (← require_str params "name") "name"
        ok (remove_toolbox username name),
    )
    ∷ []
