-- ===== src/Types.antt =====
-- crates/sysknife-types/src/lib.rs: the enums and records that the crates exchange, and the one
-- sanctioned comparison of a request hash with an approval hash. JSON values are in `Json`. The
-- child `Actions` has the catalogue of action names, `Bridge` the conversions to protobuf.
pub mod Actions
pub mod Bridge
use lacs.Prelude.{
  ℕ, String, ◌≡◌, Bool, true, false, ◌||◌, ◌&&◌, not, Option, List, [], ◌∷◌, ◌==◌, ==_iff, length,
  if◌then◌else◌, arith, eq_refl,
}
use lacs.Prelude.Text.{as_bytes, same_bytes}
use lacs.Json.{Value}

pub data CallerRole : Type 0 where
  observer dev admin boot : CallerRole

pub data RiskLevel : Type 0 where
  low medium high : RiskLevel

pub data JobState : Type 0 where
  queued running succeeded failed canceled rolled_back needs_reboot : JobState

pub data FailureCategory : Type 0 where
  validation_failure authorization_failure policy_denied stale_approval execution_failure
        transient_infrastructure_failure cancellation stuck_execution reboot_required
        rollback_failure :
      FailureCategory

pub JobState-discrete : Discrete JobState
JobState-discrete = hlevel

-- The derived `PartialEq` of `JobState`.
unfoldable pub same_state : JobState → JobState → Bool
same_state queued queued = true
same_state running running = true
same_state succeeded succeeded = true
same_state failed failed = true
same_state canceled canceled = true
same_state rolled_back rolled_back = true
same_state needs_reboot needs_reboot = true
same_state _ _ = false

-- `RequestHash` and `ApprovalHash`: transparent wrappers that keep the two apart.
pub record RequestHash : Type 0 where
  pub text : String

pub record ApprovalHash : Type 0 where
  pub text : String

pub record RequestEnvelope : Type 0 where
  pub action_name : String
  pub request_id : String
  pub params : Value
  pub caller_role : CallerRole
  pub request_hash : RequestHash

pub record PreviewEnvelope : Type 0 where
  pub summary : String
  pub risk_level : RiskLevel
  pub current_state : Value
  pub proposed_change : Value
  pub expected_side_effects : List String
  pub reboot_required : Bool
  pub rollback_available : Bool
  pub warnings : List String
  pub request_hash : RequestHash

pub record ResultEnvelope : Type 0 where
  pub status : JobState
  pub summary : String
  pub warnings : List String
  pub job_id : Option String
  pub needs_reboot : Bool
  pub rollback_ref : Option String
  pub transaction_id : String

pub record TransactionRecord : Type 0 where
  pub transaction_id : String
  pub request_id : String
  pub request_hash : String
  pub action_name : String
  pub risk_level : RiskLevel
  pub status : JobState
  pub approval_id : Option String
  pub summary : String
  pub warnings : List String

abbrev is_empty : List ℕ → Bool
is_empty [] = true
is_empty (_ ∷ _) = false

-- `subtle::ConstantTimeEq` on slices of one length is equality of the bytes.
unfoldable pub approval_matches_request : RequestHash → ApprovalHash → Bool
approval_matches_request request approval =
    let r = as_bytes request.text in
    let a = as_bytes approval.text in
    if is_empty r || not (length r == length a) then false else same_bytes r a
