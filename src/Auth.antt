-- ===== src/Auth.antt =====
-- crates/sysknife-daemon/src/auth.rs: roles from group names, and the token of vsock peers. The
-- theorems are in `Auth/Roles`.
pub mod Roles
use lacs.Prelude.{
  ℕ, String, Bool, true, false, not, Option, none, some, List, [], ◌∷◌, ltb, ◌==◌, str_eq, length,
  if◌then◌else◌,
}
use lacs.Prelude.Text.{as_bytes, encode, codes, trim, to_ascii_lowercase, same_bytes}
use lacs.Types.{CallerRole, observer, dev, admin, boot}
use mathlib.Core.List.{foldl, map}

unfoldable pub role_rank : CallerRole → ℕ
role_rank observer = 0
role_rank dev = 1
role_rank admin = 2
role_rank boot = 3

unfoldable pub role_for_group : String → CallerRole
role_for_group group =
    if str_eq group "sysknife-boot"
    then boot
    else if str_eq group "sysknife-admin"
    then admin
    else if str_eq group "wheel"
    then admin
    else if str_eq group "sysknife-dev"
    then dev
    else if str_eq group "sysknife-observer"
    then observer
    else observer

unfoldable pub higher_role : CallerRole → CallerRole → CallerRole
unfolding role_rank
higher_role current candidate =
    if ltb (role_rank current) (role_rank candidate) then candidate else current

unfoldable pub highest_role_from_groups : List String → CallerRole
highest_role_from_groups groups = foldl higher_role observer (map role_for_group groups)

-- The value of `SYSKNIFE_TOKEN_ROLE`; a variable that is not set reads as the empty text.
unfoldable pub token_role : String → CallerRole
unfolding to_ascii_lowercase same_bytes
token_role value =
    let lower = to_ascii_lowercase (codes value) in
    if same_bytes lower (codes "observer")
    then observer
    else if same_bytes lower (codes "admin")
    then admin
    else if same_bytes lower (codes "boot")
    then boot
    else dev

-- `file` is the text of the token file, `none` if it is absent or cannot be read. The environment
-- variable comes as the last argument.
unfoldable pub validate_token_against_file : String → Option String → String → Option CallerRole
validate_token_against_file presented file variable =
    if str_eq presented "" then none else elim file [
      | none ↦ none
      | some text ↦
          let stored = encode (trim (codes text)) in
          if length stored == 0
          then none
          else if not (length stored == length (as_bytes presented))
          then none
          else if not (same_bytes stored (as_bytes presented))
          then none
          else some (token_role variable)
    ]
