-- ===== src/Dispatcher/Redaction.antt =====
-- The redaction of credentials in crates/sysknife-daemon/src/dispatcher.rs: of the parameters that a
-- preview shows, and of the arguments of a command that is described.
use lacs.Prelude.{
  Bool-cases, inl, inr, ℕ, zero, suc, String, ◌≡◌, refl, ap, ◌∙◌, true, Option, none, some, List,
  [], ◌∷◌, ◌++◌, contains, str_eq, if◌then◌else◌, arith, ◌==◌, ◌-◌, length, length-append,
}
use lacs.Json.{Value, string, object, Fields, field, end, get, as_str}

unfoldable pub credential_keys_for : String → List String
credential_keys_for action_name = if str_eq action_name "ProAttach" then "token" ∷ [] else []

-- The loop of `redact_params` over the fields.
unfoldable pub redact_fields : List String → Fields → Fields
redact_fields keys end = end
redact_fields keys (field k v fs) =
    field k (if contains keys k then string "<REDACTED>" else v) (redact_fields keys fs)

unfoldable pub redact_object : List String → Value → Value
redact_object keys (object fs) = object (redact_fields keys fs)
redact_object keys v = v

unfoldable pub redact_with : List String → Value → Value
unfolding redact_object
redact_with [] params = params
redact_with (k ∷ ks) params = redact_object (k ∷ ks) params

unfoldable pub redact_params : String → Value → Value
redact_params action_name params = redact_with (credential_keys_for action_name) params

-- `usize::MAX`, which stands for the last element.
abbrev pub usize_max : ℕ
usize_max = 18446744073709551615

unfoldable pub credential_argv_position : String → Option ℕ
credential_argv_position action_name =
    if str_eq action_name "ProAttach" then some usize_max else none

unfoldable pub secrets : List String → Value → List String
secrets [] params = []
secrets (k ∷ ks) params = elim (get params k) [
  | none ↦ secrets ks params
  | some v ↦ elim (as_str v) [ none ↦ secrets ks params | some s ↦ s ∷ secrets ks params ]
]

-- `if idx < out.len() { out[idx] = … }`
unfoldable pub set_at : ℕ → String → List String → List String
set_at i s [] = []
set_at zero s (_ ∷ args) = s ∷ args
set_at (suc i) s (a ∷ args) = a ∷ set_at i s args

unfoldable pub redact_position : ℕ → List String → List String
unfolding set_at
redact_position pos args =
    set_at (if pos == usize_max then length args - 1 else pos) "<REDACTED>" args

unfoldable pub redact_matches : List String → List String → List String
redact_matches known [] = []
redact_matches known (a ∷ args) =
    (if contains known a then "<REDACTED>" else a) ∷ redact_matches known args

unfoldable pub redact_argv : String → Value → List String → List String
redact_argv action_name params args = elim (credential_keys_for action_name) [
  | [] ↦ args
  | k ∷ ks ↦ elim (secrets (k ∷ ks) params) [
    | [] ↦ args
    | s ∷ ss ↦ elim (credential_argv_position action_name) [
      | some pos ↦ redact_position pos args
      | none ↦ redact_matches (s ∷ ss) args
    ]
  ]
]

-- Fields that differ at most in the values of some keys.
pub data SameBut (keys : List String) : Fields → Fields → Type 0 where
  both_end : SameBut keys end end
  same_field :
      (k : String) (v : Value) (fs gs : Fields)
      → SameBut keys fs gs
      → SameBut keys (field k v fs) (field k v gs)
  secret_field :
      (k : String) (v w : Value) (fs gs : Fields)
      → contains keys k ≡ true
      → SameBut keys fs gs
      → SameBut keys (field k v fs) (field k w gs)

redact_fields-of_SameBut :
    (keys : List String) (fs gs : Fields)
    → SameBut keys fs gs
    → redact_fields keys fs ≡ redact_fields keys gs
unfolding redact_fields
redact_fields-of_SameBut keys _ _ both_end = refl
redact_fields-of_SameBut keys _ _ (same_field k v fs gs h) =
    ap (λ r. field k (if contains keys k then string "<REDACTED>" else v) r)
      (redact_fields-of_SameBut keys fs gs h)
redact_fields-of_SameBut keys _ _ (secret_field k v w fs gs hidden h) =
    rw (hidden, redact_fields)
      (ap (λ r. field k (string "<REDACTED>") r) (redact_fields-of_SameBut keys fs gs h))

SameBut-redact_fields : (keys : List String) (fs : Fields) → SameBut keys fs (redact_fields keys fs)
unfolding redact_fields
SameBut-redact_fields keys end = both_end
SameBut-redact_fields keys (field k v fs) = elim (Bool-cases (contains keys k)) [
  | inl hidden ↦ rw hidden (secret_field k v _ _ _ hidden (SameBut-redact_fields keys fs))
  | inr plain ↦ rw plain (same_field k v _ _ (SameBut-redact_fields keys fs))
]

-- An object whose fields are those given, but for the values of the keys.
pub data ShownBut (keys : List String) (fs : Fields) : Value → Type 0 where
  shown_but : (gs : Fields) → SameBut keys fs gs → ShownBut keys fs (object gs)

-- The parameters of `ProAttach` are shown without its token: objects that differ only in values of the
-- key `token` are shown as the same, and all other fields are shown as they are.
pub redact_params-SameBut :
    (fs gs : Fields)
    → SameBut ("token" ∷ []) fs gs
    → (redact_params "ProAttach" (object fs) ≡ redact_params "ProAttach" (object gs))
      × ShownBut ("token" ∷ []) fs (redact_params "ProAttach" (object fs))
unfolding redact_params credential_keys_for redact_with
redact_params-SameBut fs gs h = (
  ap object (redact_fields-of_SameBut ("token" ∷ []) fs gs h),
  shown_but (redact_fields ("token" ∷ []) fs) (SameBut-redact_fields ("token" ∷ []) fs),
)

set_at-append :
    (init : List String) (t s : String) → set_at (length init) t (init ++ s ∷ []) ≡ init ++ t ∷ []
unfolding set_at
set_at-append [] t s = refl
set_at-append (a ∷ init) t s = ap (λ l. a ∷ l) (set_at-append init t s)

last_index : (init : List String) (s : String) → length (init ++ s ∷ []) - 1 ≡ length init
last_index init s = omega (arith, length-append init (s ∷ []))

redact_position_last :
    (init : List String) (s : String)
    → redact_position usize_max (init ++ s ∷ []) ≡ init ++ "<REDACTED>" ∷ []
unfolding redact_position
redact_position_last init s =
    ap (λ i. set_at i "<REDACTED>" (init ++ s ∷ [])) (last_index init s)
    ∙ set_at-append init "<REDACTED>" s

-- Where a token is given to `ProAttach`, the last argument of its command, whatever it is, is shown as
-- redacted, and the others as they are.
pub redact_argv_last :
    (params : Value) (token : String) (init : List String) (last : String)
    → get params "token" ≡ some (string token)
    → redact_argv "ProAttach" params (init ++ last ∷ []) ≡ init ++ "<REDACTED>" ∷ []
unfolding redact_argv credential_keys_for secrets credential_argv_position
redact_argv_last params token init last given =
    rw (given, redact_argv) (redact_position_last init last)
