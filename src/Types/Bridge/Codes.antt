-- ===== src/Types/Bridge/Codes.antt =====
-- crates/sysknife-types/src/lib.rs: the numeric code of each enum, and the conversion back, which
-- rejects every code that is not declared, UNSPECIFIED included.
use lacs.Prelude.{ℕ, String, ◌≡◌, refl, Bool, ◌==◌, leb, arith, if◌then◌else◌}
use lacs.Types.{
  CallerRole, RiskLevel, JobState, FailureCategory, observer, dev, admin, boot, low, medium, high,
  queued, running, succeeded, failed, canceled, rolled_back, needs_reboot, validation_failure,
  authorization_failure, policy_denied, stale_approval, execution_failure,
  transient_infrastructure_failure, cancellation, stuck_execution, reboot_required,
  rollback_failure,
}

pub data BridgeError : Type 0 where
  invalid_json : String → BridgeError
  invalid_enum : String → ℕ → BridgeError

pub data Result {ℓ} (A : Type ℓ) : Type ℓ where
  ok : A → Result A
  err : BridgeError → Result A

infixl 5 ◌>>=◌
abbrev pub ◌>>=◌ {ℓ κ} : {A : Type ℓ} {B : Type κ} → Result A → (A → Result B) → Result B
ok a >>= f = f a
err e >>= f = err e

-- `proto::X::try_from(i32)`: an enum of the schema declares the numbers 0 to `last`.
abbrev declared : ℕ → ℕ → Bool
declared last code = leb code last

unfoldable pub caller_role_code : CallerRole → ℕ
caller_role_code observer = 1
caller_role_code dev = 2
caller_role_code admin = 3
caller_role_code boot = 4

-- The `match i32::from(value)` of `TryFrom<proto::CallerRole>`.
unfoldable pub caller_role_of_proto : ℕ → Result CallerRole
caller_role_of_proto code =
    if code == 1
    then ok observer
    else if code == 2
    then ok dev
    else if code == 3
    then ok admin
    else if code == 4
    then ok boot
    else err (invalid_enum "caller_role" code)

-- The field of a message: first the generated check, then the conversion.
unfoldable pub caller_role_of_i32 : ℕ → Result CallerRole
unfolding caller_role_of_proto
caller_role_of_i32 code =
    if declared 4 code then caller_role_of_proto code else err (invalid_enum "caller_role" code)

pub caller_role_of_i32-code : (x : CallerRole) → caller_role_of_i32 (caller_role_code x) ≡ ok x
unfolding caller_role_of_i32 caller_role_code
caller_role_of_i32-code observer = refl
caller_role_of_i32-code dev = refl
caller_role_of_i32-code admin = refl
caller_role_of_i32-code boot = refl

pub code-caller_role_of_i32 :
    (n : ℕ) (x : CallerRole) → caller_role_of_i32 n ≡ ok x → caller_role_code x ≡ n
unfolding caller_role_of_i32 caller_role_code
code-caller_role_of_i32 n x h = ground arith

unfoldable pub risk_level_code : RiskLevel → ℕ
risk_level_code low = 1
risk_level_code medium = 2
risk_level_code high = 3

-- The `match i32::from(value)` of `TryFrom<proto::RiskLevel>`.
unfoldable pub risk_level_of_proto : ℕ → Result RiskLevel
risk_level_of_proto code =
    if code == 1
    then ok low
    else if code == 2
    then ok medium
    else if code == 3
    then ok high
    else err (invalid_enum "risk_level" code)

-- The field of a message: first the generated check, then the conversion.
unfoldable pub risk_level_of_i32 : ℕ → Result RiskLevel
unfolding risk_level_of_proto
risk_level_of_i32 code =
    if declared 3 code then risk_level_of_proto code else err (invalid_enum "risk_level" code)

pub risk_level_of_i32-code : (x : RiskLevel) → risk_level_of_i32 (risk_level_code x) ≡ ok x
unfolding risk_level_of_i32 risk_level_code
risk_level_of_i32-code low = refl
risk_level_of_i32-code medium = refl
risk_level_of_i32-code high = refl

pub code-risk_level_of_i32 :
    (n : ℕ) (x : RiskLevel) → risk_level_of_i32 n ≡ ok x → risk_level_code x ≡ n
unfolding risk_level_of_i32 risk_level_code
code-risk_level_of_i32 n x h = ground arith

unfoldable pub job_state_code : JobState → ℕ
job_state_code queued = 1
job_state_code running = 2
job_state_code succeeded = 3
job_state_code failed = 4
job_state_code canceled = 5
job_state_code rolled_back = 6
job_state_code needs_reboot = 7

-- The `match i32::from(value)` of `TryFrom<proto::JobState>`.
unfoldable pub job_state_of_proto : ℕ → Result JobState
job_state_of_proto code =
    if code == 1
    then ok queued
    else if code == 2
    then ok running
    else if code == 3
    then ok succeeded
    else if code == 4
    then ok failed
    else if code == 5
    then ok canceled
    else if code == 6
    then ok rolled_back
    else if code == 7
    then ok needs_reboot
    else err (invalid_enum "job_state" code)

-- The field of a message: first the generated check, then the conversion.
unfoldable pub job_state_of_i32 : ℕ → Result JobState
unfolding job_state_of_proto
job_state_of_i32 code =
    if declared 7 code then job_state_of_proto code else err (invalid_enum "job_state" code)

pub job_state_of_i32-code : (x : JobState) → job_state_of_i32 (job_state_code x) ≡ ok x
unfolding job_state_of_i32 job_state_code
job_state_of_i32-code queued = refl
job_state_of_i32-code running = refl
job_state_of_i32-code succeeded = refl
job_state_of_i32-code failed = refl
job_state_of_i32-code canceled = refl
job_state_of_i32-code rolled_back = refl
job_state_of_i32-code needs_reboot = refl

pub code-job_state_of_i32 :
    (n : ℕ) (x : JobState) → job_state_of_i32 n ≡ ok x → job_state_code x ≡ n
unfolding job_state_of_i32 job_state_code
code-job_state_of_i32 n x h = ground arith

unfoldable pub failure_category_code : FailureCategory → ℕ
failure_category_code validation_failure = 1
failure_category_code authorization_failure = 2
failure_category_code policy_denied = 3
failure_category_code stale_approval = 4
failure_category_code execution_failure = 5
failure_category_code transient_infrastructure_failure = 6
failure_category_code cancellation = 7
failure_category_code stuck_execution = 8
failure_category_code reboot_required = 9
failure_category_code rollback_failure = 10

-- The `match i32::from(value)` of `TryFrom<proto::FailureCategory>`.
unfoldable pub failure_category_of_proto : ℕ → Result FailureCategory
failure_category_of_proto code =
    if code == 1
    then ok validation_failure
    else if code == 2
    then ok authorization_failure
    else if code == 3
    then ok policy_denied
    else if code == 4
    then ok stale_approval
    else if code == 5
    then ok execution_failure
    else if code == 6
    then ok transient_infrastructure_failure
    else if code == 7
    then ok cancellation
    else if code == 8
    then ok stuck_execution
    else if code == 9
    then ok reboot_required
    else if code == 10
    then ok rollback_failure
    else err (invalid_enum "failure_category" code)

pub failure_category_of_proto-code :
    (x : FailureCategory) → failure_category_of_proto (failure_category_code x) ≡ ok x
unfolding failure_category_of_proto failure_category_code
failure_category_of_proto-code validation_failure = refl
failure_category_of_proto-code authorization_failure = refl
failure_category_of_proto-code policy_denied = refl
failure_category_of_proto-code stale_approval = refl
failure_category_of_proto-code execution_failure = refl
failure_category_of_proto-code transient_infrastructure_failure = refl
failure_category_of_proto-code cancellation = refl
failure_category_of_proto-code stuck_execution = refl
failure_category_of_proto-code reboot_required = refl
failure_category_of_proto-code rollback_failure = refl

pub code-failure_category_of_proto :
    (n : ℕ) (x : FailureCategory) → failure_category_of_proto n ≡ ok x → failure_category_code x ≡ n
unfolding failure_category_of_proto failure_category_code
code-failure_category_of_proto n x h = ground arith
