-- ===== src/Build/Users.antt =====
-- crates/sysknife-daemon/src/executor.rs: arms of the `match` in `build_action_spec`, each a name
-- with what it does with the parameters, in the order of the source.
use lacs.Prelude.{List, [], ◌∷◌}
use lacs.Executor.{ok, ◌>>=◌}
use lacs.Validate.{validated_username, validated_group, validated_safe_arg}
use lacs.Params.{
  require_str, resolve_username, validated_public_key, optional_str, validated_optional, Arm,
}
use lacs.Actions.Users.{
  add_authorized_key, add_user_to_group, create_user, delete_user, get_authorized_keys, list_groups,
  list_users, remove_authorized_key, remove_user_from_group,
}

unfoldable pub user_arms : List Arm
user_arms =
    ("ListUsers", λ params. ok list_users)
    ∷ ("ListGroups", λ params. ok list_groups)
    ∷ (
      "CreateUser",
      λ params. do
        username ← validated_username (← resolve_username params) "username"
        shell ← validated_optional (λ s. validated_safe_arg s "shell") (optional_str params "shell")
        home ← validated_optional (λ s. validated_safe_arg s "home") (optional_str params "home")
        ok (create_user username shell home),
    )
    ∷ (
      "DeleteUser",
      λ params. do
        username ← validated_username (← resolve_username params) "username"
        ok (delete_user username),
    )
    ∷ (
      "AddUserToGroup",
      λ params. do
        username ← validated_username (← resolve_username params) "username"
        group ← validated_group (← require_str params "group") "group"
        ok (add_user_to_group username group),
    )
    ∷ (
      "RemoveUserFromGroup",
      λ params. do
        username ← validated_username (← resolve_username params) "username"
        group ← validated_group (← require_str params "group") "group"
        ok (remove_user_from_group username group),
    )
    ∷ []

unfoldable pub ssh_arms : List Arm
ssh_arms =
    (
      "GetAuthorizedKeys",
      λ params. do
        username ← validated_username (← resolve_username params) "username"
        ok (get_authorized_keys username),
    )
    ∷ (
      "AddAuthorizedKey",
      λ params. do
        username ← validated_username (← resolve_username params) "username"
        public_key ← validated_public_key (← require_str params "public_key")
        ok (add_authorized_key username public_key),
    )
    ∷ (
      "RemoveAuthorizedKey",
      λ params. do
        username ← validated_username (← resolve_username params) "username"
        public_key ← validated_public_key (← require_str params "public_key")
        ok (remove_authorized_key username public_key),
    )
    ∷ []
