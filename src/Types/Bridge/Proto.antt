-- ===== src/Types/Bridge/Proto.antt =====
-- crates/sysknife-proto/proto/sysknife/v1: the messages that the build generates Rust structs for.
use lacs.Prelude.{ℕ, String, Bool, List}

pub record RequestEnvelope : Type 0 where
  pub action_name : String
  pub request_id : String
  pub params_json : String
  pub caller_role : ℕ
  pub request_hash : String

pub record PreviewEnvelope : Type 0 where
  pub summary : String
  pub risk_level : ℕ
  pub current_state_json : String
  pub proposed_change_json : String
  pub expected_side_effects : List String
  pub reboot_required : Bool
  pub rollback_available : Bool
  pub warnings : List String
  pub request_hash : String

pub record ResultEnvelope : Type 0 where
  pub status : ℕ
  pub summary : String
  pub warnings : List String
  pub job_id : String
  pub needs_reboot : Bool
  pub rollback_ref : String
  pub transaction_id : String

pub record TransactionRecord : Type 0 where
  pub transaction_id : String
  pub request_id : String
  pub request_hash : String
  pub action_name : String
  pub risk_level : ℕ
  pub status : ℕ
  pub approval_id : String
  pub summary : String
  pub warnings : List String
