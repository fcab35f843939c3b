-- ===== src/Executor.antt =====
-- crates/sysknife-daemon/src/actions/mod.rs and executor.rs: what the dispatcher knows of an action,
-- the errors of building one, and the interface through which it builds and runs one. The builder
-- itself is in `Build`, its parameters in `Params`, the constructors of actions in `Actions`.
use lacs.Prelude.{ℕ, zero, String, Bool, true, false, Option, none, some, List}
use lacs.Json.{Value}
use lacs.Types.{RiskLevel}

-- An exit code is an `i32`, which may be negative.
pub data ℤ : Type 0 where
  pos : ℕ → ℤ
  negsuc : ℕ → ℤ

pub data ActionMechanism : Type 0 where
  command : String → List String → ActionMechanism
  file_scan : String → ActionMechanism
  file_write : String → String → ActionMechanism
  file_patch : String → String → String → ActionMechanism
  file_delete : String → ActionMechanism

pub record ActionSpec : Type 0 where
  pub action_name : String
  pub mechanism : ActionMechanism
  pub risk_level : RiskLevel
  pub reboot_required : Bool
  pub rollback_available : Bool

-- The errors of building an action; that of running one (`Io`) is a text in `Outcome`.
pub data ExecutorError : Type 0 where
  unknown_action : String → ExecutorError
  missing_param : String → ExecutorError
  invalid_param : String → ExecutorError
  invalid_ip_address : String → String → ExecutorError

pub data Result {ℓ} (A : Type ℓ) : Type ℓ where
  ok : A → Result A
  err : ExecutorError → Result A

-- The operator `?`.
infixl 5 ◌>>=◌ ◌>>◌
abbrev pub ◌>>=◌ {ℓ κ} : {A : Type ℓ} {B : Type κ} → Result A → (A → Result B) → Result B
ok a >>= f = f a
err e >>= f = err e

abbrev pub ◌>>◌ {ℓ κ} : {A : Type ℓ} {B : Type κ} → Result A → Result B → Result B
m >> k = m >>= λ _. k

-- `Option::ok_or` and `Option::transpose`
abbrev pub ok_or {ℓ} : {A : Type ℓ} → Option A → ExecutorError → Result A
ok_or none e = err e
ok_or (some a) e = ok a

abbrev pub transpose {ℓ} : {A : Type ℓ} → Option (Result A) → Result (Option A)
transpose none = ok none
transpose (some (ok a)) = ok (some a)
transpose (some (err e)) = err e

pub record ExecutionOutput : Type 0 where
  pub stdout : String
  pub stderr : String
  pub exit_code : ℤ

unfoldable pub is_success : ExecutionOutput → Bool
is_success o = elim o.exit_code [ pos zero ↦ true | _ ↦ false ]

-- `Result<ExecutionOutput, ExecutorError>`, the error as its text.
pub data Outcome : Type 0 where
  ran_to_end : ExecutionOutput → Outcome
  executor_error : String → Outcome

-- `build_action_spec` (`none` is an error), `rollback_spec_for`, the lines that a command prints and
-- what it ends with, `execute_spec`, and the method `execute` of an `ActionExecutor`.
pub record Executor : Type 0 where
  pub build_action_spec : String → Value → Option ActionSpec
  pub rollback_spec_for : String → Option ActionSpec
  pub run_command : String → List String → List String × Outcome
  pub execute_spec : ActionSpec → Outcome
  pub execute : ActionSpec → Outcome
