-- ===== src/Validate.antt =====
-- crates/sysknife-daemon/src/actions/validate.rs: the checks on the text of a parameter before it
-- stands in a command. `Validate/SafeArg` has the theorems.
pub mod SafeArg
use lacs.Prelude.{
  ℕ, zero, suc, String, ◌+◌, ◌*◌, ◌-◌, Bool, true, false, ◌&&◌, ◌||◌, not, Option, none, some, List,
  [], ◌∷◌, length, all, ltb, leb, ◌==◌, str_eq, if◌then◌else◌,
}
use lacs.Prelude.Text.{codes, as_bytes, same_bytes}
use lacs.Executor.{Result, ok, err, invalid_param}

-- `char::is_ascii_digit`, `is_ascii_alphabetic`, `is_ascii_alphanumeric`
abbrev pub is_ascii_digit : ℕ → Bool
is_ascii_digit c = leb b'0' c && leb c b'9'

abbrev pub is_ascii_alphabetic : ℕ → Bool
is_ascii_alphabetic c = (leb b'A' c && leb c b'Z') || (leb b'a' c && leb c b'z')

abbrev pub is_ascii_alphanumeric : ℕ → Bool
is_ascii_alphanumeric c = is_ascii_alphabetic c || is_ascii_digit c

-- `str::is_empty`, `starts_with` and `contains` of one character
abbrev pub is_empty : List ℕ → Bool
is_empty [] = true
is_empty (c ∷ cs) = false

abbrev pub starts_with_char : ℕ → List ℕ → Bool
starts_with_char d [] = false
starts_with_char d (c ∷ cs) = c == d

abbrev pub starts_with_letter : List ℕ → Bool
starts_with_letter [] = false
starts_with_letter (c ∷ cs) = is_ascii_alphabetic c

abbrev pub contains_char : ℕ → List ℕ → Bool
contains_char d [] = false
contains_char d (c ∷ cs) = c == d || contains_char d cs

-- `str::strip_prefix` and `starts_with` of a text
abbrev pub strip_prefix : List ℕ → List ℕ → Option (List ℕ)
strip_prefix [] s = some s
strip_prefix (p ∷ ps) [] = none
strip_prefix (p ∷ ps) (c ∷ cs) = let rest = strip_prefix ps cs in if c == p then rest else none

abbrev pub starts_with : List ℕ → List ℕ → Bool
starts_with p s = elim (strip_prefix p s) [ none ↦ false | some rest ↦ true ]

-- `contains("..")`
abbrev pub contains_dots : List ℕ → Bool
contains_dots [] = false
contains_dots (c ∷ cs) = (c == b'.' && starts_with_char b'.' cs) || contains_dots cs

-- `str::find` of a character, with the texts before and after it, `split` and `splitn`
abbrev pub split_at_first : ℕ → List ℕ → Option (List ℕ × List ℕ)
split_at_first d [] = none
split_at_first d (c ∷ cs) =
    let rest = split_at_first d cs in
    if c == d
    then some ([], cs)
    else elim rest [ none ↦ none | some (before, after) ↦ some (c ∷ before, after) ]

abbrev pub split : ℕ → List ℕ → List (List ℕ)
split d [] = [] ∷ []
split d (c ∷ cs) =
    let rest = split d cs in
    if c == d
    then [] ∷ rest
    else elim rest [ [] ↦ (c ∷ []) ∷ [] | label ∷ labels ↦ (c ∷ label) ∷ labels ]

abbrev pub splitn : ℕ → ℕ → List ℕ → List (List ℕ)
splitn zero d s = []
splitn (suc zero) d s = s ∷ []
splitn (suc (suc n)) d s = elim (split_at_first d s) [
  | none ↦ s ∷ []
  | some (before, after) ↦ before ∷ splitn (suc n) d after
]

-- `str::len`
abbrev pub len : String → ℕ
len s = length (as_bytes s)

-- `str::parse::<u32>` on digits only
abbrev pub parse_digits : ℕ → List ℕ → Option ℕ
parse_digits n [] = some n
parse_digits n (d ∷ ds) =
    let rest = parse_digits (n * 10 + (d - b'0')) ds in
    if ltb (n * 10 + (d - b'0')) 0x100000000 then rest else none

-- Each check either returns the text or rejects the parameter.
abbrev pub accept : Bool → String → String → Result String
accept good s param = if good then ok s else err (invalid_param param)

abbrev pub is_username_char : ℕ → Bool
is_username_char c = is_ascii_alphanumeric c || c == b'.' || c == b'_' || c == b'-'

unfoldable pub validated_username : String → String → Result String
validated_username s param =
    if is_empty (codes s) || ltb 32 (len s)
    then err (invalid_param param)
    else if starts_with_char b'-' (codes s)
    then err (invalid_param param)
    else accept (all is_username_char (codes s)) s param

unfoldable pub validated_group : String → String → Result String
unfolding validated_username
validated_group = validated_username

unfoldable pub validated_unit_name : String → String → Result String
validated_unit_name s param =
    if is_empty (codes s)
    then err (invalid_param param)
    else accept
        (all
          (λ c.
            is_ascii_alphanumeric c
            || c == b'@'
            || c == b'.'
            || c == b'_'
            || c == b':'
            || c == b'-')
          (codes s))
        s param

unfoldable pub validated_hostname : String → String → Result String
validated_hostname s param =
    if is_empty (codes s) || ltb 253 (len s)
    then err (invalid_param param)
    else if not (all (λ c. is_ascii_alphanumeric c || c == b'.' || c == b'-') (codes s))
    then err (invalid_param param)
    else accept
        (all (λ label. not (is_empty label || ltb 63 (length label))) (split b'.' (codes s))) s
        param

unfoldable pub validated_timezone : String → String → Result String
validated_timezone s param =
    if is_empty (codes s)
    then err (invalid_param param)
    else if contains_dots (codes s)
    then err (invalid_param param)
    else accept
        (all (λ c. is_ascii_alphanumeric c || c == b'/' || c == b'_' || c == b'+' || c == b'-')
          (codes s))
        s param

unfoldable pub validated_locale : String → String → Result String
validated_locale s param =
    if is_empty (codes s)
    then err (invalid_param param)
    else accept (all is_username_char (codes s)) s param

abbrev pub safe_arg_max_bytes : ℕ
safe_arg_max_bytes = 254

unfoldable pub validated_ppa_name : String → String → Result String
validated_ppa_name s param = elim (splitn 3 b'/' (codes s)) [
  | user ∷ ppa ∷ [] ↦
      if is_empty user || is_empty ppa
      then err (invalid_param param)
      else if not (all is_username_char user) || not (all is_username_char ppa)
      then err (invalid_param param)
      else accept (not (ltb safe_arg_max_bytes (len s))) s param
  | _ ↦ err (invalid_param param)
]

abbrev pub apparmor_profile_name_max : ℕ
apparmor_profile_name_max = 128

-- The absolute form: what follows the prefix, if the text has it.
unfoldable pub is_profile_path : List ℕ → Bool
is_profile_path s = elim (strip_prefix (codes "/etc/apparmor.d/") s) [
  | none ↦ false
  | some suffix ↦
      not (contains_dots s)
      && not (is_empty suffix)
      && all (λ c. is_username_char c || c == b'/') suffix
]

unfoldable pub validated_apparmor_profile : String → String → Result String
unfolding is_profile_path
validated_apparmor_profile s param =
    if is_empty (codes s)
    then err (invalid_param param)
    else if starts_with_char b'/' (codes s)
    then accept (is_profile_path (codes s)) s param
    else if contains_char b'/' (codes s)
    then err (invalid_param param)
    else if starts_with_char b'.' (codes s)
    then err (invalid_param param)
    else if ltb apparmor_profile_name_max (len s)
    then err (invalid_param param)
    else accept (all is_username_char (codes s)) s param

abbrev pub ufw_app_name_max : ℕ
ufw_app_name_max = 64

-- Digits that are a port.
unfoldable pub is_port : List ℕ → Bool
is_port digits = elim (parse_digits 0 digits) [
  | none ↦ false
  | some port ↦ not (port == 0 || ltb 65535 port)
]

unfoldable pub validated_port_or_service : String → String → Result String
unfolding is_port
validated_port_or_service s param =
    if is_empty (codes s) then err (invalid_param param) else elim (split_at_first b'/' (codes s)) [
      | some (port_part, proto_part) ↦
          if not (same_bytes proto_part (codes "tcp")) && not (same_bytes proto_part (codes "udp"))
          then err (invalid_param param)
          else if is_empty port_part || not (all is_ascii_digit port_part)
          then err (invalid_param param)
          else accept (is_port port_part) s param
      | none ↦
          if all is_ascii_digit (codes s)
          then accept (is_port (codes s)) s param
          else if not (starts_with_letter (codes s))
          then err (invalid_param param)
          else if ltb ufw_app_name_max (len s)
          then err (invalid_param param)
          else accept (all (λ c. is_ascii_alphanumeric c || c == b'_' || c == b'-') (codes s)) s
              param
    ]

abbrev pub is_safe_char : ℕ → Bool
is_safe_char c =
    is_ascii_alphanumeric c
    || c == b'.'
    || c == b'_'
    || c == b':'
    || c == b'/'
    || c == b'+'
    || c == b'@'
    || c == b'-'

unfoldable pub validated_safe_arg : String → String → Result String
validated_safe_arg s param =
    if is_empty (codes s) || ltb safe_arg_max_bytes (len s)
    then err (invalid_param param)
    else if starts_with_char b'-' (codes s)
    then err (invalid_param param)
    else accept (all is_safe_char (codes s)) s param
