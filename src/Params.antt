-- ===== src/Params.antt =====
-- crates/sysknife-daemon/src/executor.rs, lines after `execute_spec`: how the arms of
-- `build_action_spec` read a parameter. `str::to_lowercase` and `IpAddr` are those of the standard
-- library, with its Unicode tables and address grammar, and are parameters.
use lacs.Prelude.{
  ℕ, String, Bool, false, ◌&&◌, ◌||◌, not, Option, none, some, List, [], ◌∷◌, all, ltb, ◌==◌,
  if◌then◌else◌, ◌⊎◌, inl, inr,
}
use lacs.Prelude.Text.{codes, same_bytes}
use lacs.Json.{Value, null, bool, array, Items, nil, cons, get, as_str, as_u64}
use lacs.Executor.{
  ExecutorError, Result, ok, err, missing_param, invalid_param, ok_or, transpose, ◌>>=◌,
  invalid_ip_address, ActionSpec,
}
use lacs.Validate.{
  is_empty, starts_with, strip_prefix, split, len, is_ascii_alphanumeric, contains_char, accept,
}

-- `IpAddr::from_str`, an address as the text that `to_string` prints, and `str::to_lowercase`.
pub record Std : Type 0 where
  pub ip_from_str : String → Option String
  pub to_lowercase : List ℕ → List ℕ

-- `Value::as_bool`
abbrev pub as_bool : Value → Option Bool
as_bool (bool b) = some b
as_bool _ = none

-- `params.get(key)` for a parameter that must be there, and what it is read as
abbrev required {ℓ} : {A : Type ℓ} → (Value → Option A) → Value → String → Result A
required read params key = elim (get params key) [
  | none ↦ err (missing_param key)
  | some v ↦ ok_or (read v) (invalid_param key)
]

unfoldable pub require_str : Value → String → Result String
require_str = required as_str

unfoldable pub require_bool : Value → String → Result Bool
require_bool = required as_bool

-- `Option::or_else`
abbrev or_else {ℓ} : {A : Type ℓ} → Option A → Option A → Option A
or_else none b = b
or_else (some a) b = some a

unfoldable pub resolve_username : Value → Result String
resolve_username params = do
  v ← ok_or (or_else (get params "username") (get params "user")) (missing_param "username")
  ok_or (as_str v) (invalid_param "username")

unfoldable pub validated_repo_id : Value → Result String
unfolding require_str
validated_repo_id params = do
  id ← require_str params "repo_id"
  accept
      (not (is_empty (codes id))
        && all (λ c. is_ascii_alphanumeric c || c == b'-' || c == b'_') (codes id))
      id "repo_id"

unfoldable pub validated_no_newline : Value → String → Result String
unfolding require_str
validated_no_newline params key = do
  val ← require_str params key
  accept (not (contains_char 0x0a (codes val) || contains_char 0x0d (codes val))) val key

abbrev allowed_prefixes : List String
allowed_prefixes =
    "ssh-rsa" ∷ "ssh-ed25519" ∷ "ssh-ed25519-sk" ∷ "ecdsa-sha2-nistp256" ∷ "ecdsa-sha2-nistp384"
    ∷ "ecdsa-sha2-nistp521" ∷ "sk-ssh-ed25519" ∷ "sk-ecdsa-sha2-nistp256" ∷ []

-- `prefixes.iter().any(|p| s.starts_with(p))`
abbrev pub starts_with_any : List String → List ℕ → Bool
starts_with_any [] s = false
starts_with_any (p ∷ ps) s = starts_with (codes p) s || starts_with_any ps s

-- The characters that a key may have: the closure of `validated_public_key`, negated.
abbrev pub is_key_char : ℕ → Bool
is_key_char c =
    not (
      c == 0x0a
      || c == 0x0d
      || c == b'\''
      || c == b'|'
      || c == b';'
      || c == b'`'
      || c == b'$'
      || c == b'\\'
      || c == b'&')
    && ltb c 128
    && not (ltb c 32 || c == 127)

unfoldable pub validated_public_key : String → Result String
validated_public_key s =
    if is_empty (codes s) || ltb 8192 (len s)
    then err (invalid_param "public_key")
    else if not (starts_with_any allowed_prefixes (codes s))
    then err (invalid_param "public_key")
    else accept (all is_key_char (codes s)) s "public_key"

unfoldable pub require_u32 : Value → String → Result ℕ
require_u32 params key = do
  n ← required as_u64 params key
  if ltb n 0x100000000 then ok n else err (invalid_param key)

unfoldable pub require_positive_u32 : Value → String → Result ℕ
unfolding require_u32
require_positive_u32 params key = do
  n ← require_u32 params key
  if n == 0 then err (invalid_param key) else ok n

-- The strings of an array, all of them or none.
unfoldable pub all_strings : String → Items → Result (List String)
all_strings key nil = ok []
all_strings key (cons v vs) = do
  s ← ok_or (as_str v) (invalid_param key)
  rest ← all_strings key vs
  ok (s ∷ rest)

-- The `match` of `str_array_or_empty`.
unfoldable pub array_or_empty : String → Option Value → Result (List String)
unfolding all_strings
array_or_empty key none = ok []
array_or_empty key (some null) = ok []
array_or_empty key (some (array arr)) = all_strings key arr
array_or_empty key (some _) = err (invalid_param key)

unfoldable pub str_array_or_empty : Value → String → Result (List String)
unfolding array_or_empty
str_array_or_empty params key = array_or_empty key (get params key)

-- `filter_map` over an array, and `unwrap_or_default`: what is no string is left out.
strings_of : Items → List String
strings_of nil = []
strings_of (cons v vs) =
    let rest = strings_of vs in elim (as_str v) [ none ↦ rest | some s ↦ s ∷ rest ]

unfoldable pub strings_or_default : Value → String → List String
unfolding strings_of
strings_or_default params key = elim (get params key) [ some (array arr) ↦ strings_of arr | _ ↦ [] ]

-- A validator over every element: with the texts kept, and for the check alone.
unfoldable pub validated_each {ℓ} :
    {A : Type ℓ} → (String → Result A) → List String → Result (List A)
validated_each check [] = ok []
validated_each check (s ∷ ss) = do a ← check s; rest ← validated_each check ss; ok (a ∷ rest)

-- `params.get(key).and_then(|v| v.as_str())`, with `.filter(|s| !s.is_empty())`
unfoldable pub optional_str : Value → String → Option String
optional_str params key = elim (get params key) [ none ↦ none | some v ↦ as_str v ]

unfoldable pub nonempty_str : Value → String → Option String
unfolding optional_str
nonempty_str params key = elim (optional_str params key) [
  | none ↦ none
  | some s ↦ if is_empty (codes s) then none else some s
]

-- `.map(|s| check(s)).transpose()`
unfoldable pub validated_optional :
    (String → Result String) → Option String → Result (Option String)
validated_optional check o = transpose (elim o [ none ↦ none | some s ↦ some (check s) ])

-- `unwrap_or`
abbrev pub unwrap_or {ℓ} : {A : Type ℓ} → Option A → A → A
unwrap_or none a = a
unwrap_or (some b) a = b

abbrev blocked_prefixes : List String
blocked_prefixes = "init=" ∷ "selinux=0" ∷ "enforcing=0" ∷ "security=" ∷ "module_blacklist=" ∷ []

abbrev blocked_exact : List String
blocked_exact = "single" ∷ "s" ∷ "1" ∷ []

abbrev blocked_unit_prefixes : List String
blocked_unit_prefixes = "emergency" ∷ "rescue" ∷ "single" ∷ []

-- `list.iter().any(|e| s == *e)`
abbrev equals_any : List String → List ℕ → Bool
equals_any [] s = false
equals_any (e ∷ es) s = same_bytes s (codes e) || equals_any es s

-- `s.split('=').next().unwrap_or(&s)`
abbrev base_of : List ℕ → List ℕ
base_of s = elim (split b'=' s) [ [] ↦ s | base ∷ rest ↦ base ]

-- What the checks of `validated_safe_kernel_arg` reject, on the lowercase text.
unfoldable pub is_blocked : List ℕ → Bool
is_blocked lower =
    starts_with_any blocked_prefixes lower
    || equals_any blocked_exact lower
    || (elim (strip_prefix (codes "systemd.unit=") lower) [
      | none ↦ false
      | some unit_val ↦ starts_with_any blocked_unit_prefixes unit_val
    ])
    || equals_any blocked_exact (base_of lower)

unfoldable pub validated_safe_kernel_arg : Std → String → Result (Unit {0})
unfolding is_blocked
validated_safe_kernel_arg std arg =
    if is_blocked (std.to_lowercase (codes arg)) then err (invalid_param "add") else ok tt

-- An arm of `build_action_spec`: a name, and what it makes of the parameters.
abbrev pub Arm : Type 0
Arm = String × (Value → Result ActionSpec)

-- `params.get(key).and_then(|v| v.as_bool())`
unfoldable pub optional_bool : Value → String → Option Bool
optional_bool params key = elim (get params key) [ none ↦ none | some v ↦ as_bool v ]

-- `Result::map_err`, from the error type of a constructor.
abbrev pub map_err {ℓ} : {E : Type ℓ} → (E → ExecutorError) → E ⊎ ActionSpec → Result ActionSpec
map_err f (inl e) = err (f e)
map_err f (inr s) = ok s

-- The early return on an empty list.
abbrev pub guard_nonempty : List String → ExecutorError → Result (Unit {0})
guard_nonempty [] e = err e
guard_nonempty (s ∷ ss) e = ok tt

-- `IpAddr::from_str(s).map_err(..)?`
unfoldable pub parse_ip : Std → String → String → Result String
parse_ip std param s = ok_or (std.ip_from_str s) (invalid_ip_address param s)
