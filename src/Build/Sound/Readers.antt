-- ===== src/Build/Sound/Readers.antt =====
-- crates/sysknife-daemon/src/executor.rs: the errors of the parameters' readers and of the checks.
use lacs.Prelude.{String, List, [], ◌∷◌, Option, none, some, arith}
use lacs.Json.{Value, null, bool, number, string, object, array, Items, nil, cons, get, as_str}
use lacs.Executor.{Result, missing_param, invalid_param, ok_or}
use lacs.Validate.{
  validated_username, validated_group, validated_unit_name, validated_hostname, validated_timezone,
  validated_locale, validated_ppa_name, validated_apparmor_profile, validated_port_or_service,
  validated_safe_arg,
}
use lacs.Params.{
  Std, require_str, resolve_username, validated_repo_id, validated_no_newline, validated_public_key,
  require_bool, require_u32, require_positive_u32, str_array_or_empty, validated_each,
  validated_optional, validated_safe_kernel_arg, guard_nonempty, parse_ip, all_strings,
  array_or_empty,
}
use lacs.Build.Sound.{
  Reads, reads_rules, Reads-ok, Reads-bind, Reads-invalid, Reads-missing, Reads-transpose,
}

module _ (s param : String) where
  pub Reads-username : Reads (validated_username s param)
  unfolding validated_username
  Reads-username = search reads_rules

  pub Reads-group : Reads (validated_group s param)
  unfolding validated_group
  Reads-group = Reads-username

  pub Reads-unit_name : Reads (validated_unit_name s param)
  unfolding validated_unit_name
  Reads-unit_name = search reads_rules

  pub Reads-hostname : Reads (validated_hostname s param)
  unfolding validated_hostname
  Reads-hostname = search reads_rules

  pub Reads-timezone : Reads (validated_timezone s param)
  unfolding validated_timezone
  Reads-timezone = search reads_rules

  pub Reads-locale : Reads (validated_locale s param)
  unfolding validated_locale
  Reads-locale = search reads_rules

  pub Reads-safe_arg : Reads (validated_safe_arg s param)
  unfolding validated_safe_arg
  Reads-safe_arg = search reads_rules

  pub Reads-ppa_name : Reads (validated_ppa_name s param)
  unfolding validated_ppa_name
  Reads-ppa_name = record { holds = ground arith }

  pub Reads-apparmor_profile : Reads (validated_apparmor_profile s param)
  unfolding validated_apparmor_profile
  Reads-apparmor_profile = search reads_rules depth 9

  pub Reads-port_or_service : Reads (validated_port_or_service s param)
  unfolding validated_port_or_service
  Reads-port_or_service = record { holds = ground arith }

module _ (params : Value) where
  pub Reads-require_str : (key : String) → Reads (require_str params key)
  unfolding require_str
  Reads-require_str key = record { holds = ground arith }

  pub Reads-require_bool : (key : String) → Reads (require_bool params key)
  unfolding require_bool
  Reads-require_bool key = record { holds = ground arith }

  pub Reads-resolve_username : Reads (resolve_username params)
  unfolding resolve_username
  Reads-resolve_username = search reads_rules

  pub Reads-repo_id : Reads (validated_repo_id params)
  unfolding validated_repo_id
  Reads-repo_id = search (reads_rules, Reads-require_str)

  pub Reads-no_newline : (key : String) → Reads (validated_no_newline params key)
  unfolding validated_no_newline
  Reads-no_newline key = search (reads_rules, Reads-require_str)

  pub Reads-require_u32 : (key : String) → Reads (require_u32 params key)
  unfolding require_u32
  Reads-require_u32 key = record { holds = ground arith }

  pub Reads-positive_u32 : (key : String) → Reads (require_positive_u32 params key)
  unfolding require_positive_u32
  Reads-positive_u32 key = search (reads_rules, Reads-require_u32)

all_strings_lem : (key : String) (vs : Items) → Reads (all_strings key vs)
unfolding all_strings
all_strings_lem key nil = Reads-ok []
all_strings_lem key (cons v vs) =
    Reads-bind (ok_or (as_str v) (invalid_param key)) _ (search reads_rules) (λ s.
      Reads-bind (all_strings key vs) _ (all_strings_lem key vs) (λ rest. Reads-ok (s ∷ rest)))

Reads-array : (key : String) (o : Option Value) → Reads (array_or_empty key o)
unfolding array_or_empty
Reads-array key none = Reads-ok []
Reads-array key (some null) = Reads-ok []
Reads-array key (some (array vs)) = all_strings_lem key vs
Reads-array key (some (bool b)) = Reads-invalid key
Reads-array key (some (number t n)) = Reads-invalid key
Reads-array key (some (string t)) = Reads-invalid key
Reads-array key (some (object fs)) = Reads-invalid key

pub Reads-str_array : (params : Value) (key : String) → Reads (str_array_or_empty params key)
unfolding str_array_or_empty
Reads-str_array params key = Reads-array key (get params key)

pub Reads-public_key : (s : String) → Reads (validated_public_key s)
unfolding validated_public_key
Reads-public_key s = search reads_rules

pub Reads-each {ℓ} :
    {A : Type ℓ} (check : String → Result A)
    → ((s : String) → Reads (check s))
    → (ss : List String) → Reads (validated_each check ss)
unfolding validated_each
Reads-each check h [] = Reads-ok []
Reads-each check h (s ∷ ss) = Reads-bind (check s) _ (h s) (λ a.
    Reads-bind (validated_each check ss) _ (Reads-each check h ss) (λ rest. Reads-ok (a ∷ rest)))

pub Reads-optional :
    (check : String → Result String)
    → ((s : String) → Reads (check s))
    → (o : Option String) → Reads (validated_optional check o)
unfolding validated_optional
Reads-optional check h none = Reads-ok none
Reads-optional check h (some s) = Reads-transpose (check s) (h s)

pub Reads-kernel_arg : (std : Std) (s : String) → Reads (validated_safe_kernel_arg std s)
unfolding validated_safe_kernel_arg
Reads-kernel_arg std s = search reads_rules

pub Reads-nonempty :
    (ss : List String) (key : String) → Reads (guard_nonempty ss (missing_param key))
Reads-nonempty [] key = Reads-missing key
Reads-nonempty (s ∷ ss) key = Reads-ok tt

pub Reads-parse_ip : (std : Std) (param s : String) → Reads (parse_ip std param s)
unfolding parse_ip
Reads-parse_ip std param s = search reads_rules

pub ruleset readers = (
  reads_rules, Reads-username, Reads-group, Reads-unit_name, Reads-hostname, Reads-timezone,
  Reads-locale, Reads-safe_arg, Reads-ppa_name, Reads-apparmor_profile, Reads-port_or_service,
  Reads-require_str, Reads-require_bool, Reads-resolve_username, Reads-repo_id, Reads-no_newline,
  Reads-require_u32, Reads-positive_u32, Reads-str_array, Reads-public_key, Reads-each,
  Reads-optional, Reads-kernel_arg, Reads-nonempty, Reads-parse_ip,
)
