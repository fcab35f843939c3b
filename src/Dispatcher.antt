-- ===== src/Dispatcher.antt =====
-- crates/sysknife-daemon/src/dispatcher.rs: the execution of an approved request. A text that the code
-- formats is a constructor with the values that the text shows. `Dispatcher/Previews` has the preview
-- and the description of a request, `Dispatcher/Gate`, `Dispatcher/Settles` and `Dispatcher/Ready`
-- the theorems.
pub mod Redaction
pub mod Gate
pub mod Keeps
pub mod Outcomes
pub mod Settles
pub mod Previews
pub mod Ready
use lacs.Prelude.{
  ℕ, zero, suc, String, Bool, true, false, not, Option, none, some, List, [], ◌∷◌, ◌++◌, str_eq,
  if◌then◌else◌,
}
use lacs.Json.{Value}
use lacs.Types.{
  CallerRole, JobState, queued, running, succeeded, failed, canceled, rolled_back, needs_reboot,
  same_state, PreviewEnvelope,
}
use lacs.Policy.{
  PolicyTable, table_action_allowed, require_fresh_approval, ApprovalError, fresh, stale,
}
use lacs.Executor.{
  ActionSpec, ActionMechanism, command, ExecutionOutput, is_success, Outcome, ran_to_end,
  executor_error, Executor, ℤ, ExecutorError,
}
use lacs.Transactions.{
  TransactionStore, TransactionStoreError, ok, err, find_by_request_hash, claim_for_execution,
  update_status,
}

-- What an error response says.
pub data Message : Type 0 where
  invalid_action : String → Message
  not_allowed : String → CallerRole → Message
  not_fresh : ApprovalError → Message
  lookup_failed : TransactionStoreError → Message
  no_prior_preview : Message
  already_claimed : Message
  cannot_build : ExecutorError → Message
  not_described : String → ExecutorError → Message
  not_recorded : TransactionStoreError → Message

-- A line of progress.
pub data Line : Type 0 where
  authorization_passed : String → Line
  executing : String → Line
  printed : String → Line
  completed_with_code : String → ℤ → Line
  completed_with_error : String → String → Line
  attempting_rollback : String → Line
  rollback_succeeded : Line
  rollback_failed : Outcome → Line

pub data Summary : Type 0 where
  reboot_required_summary : String → Summary
  succeeded_summary : String → Summary
  failed_with_code : String → ℤ → Summary
  failed_with_error : String → String → Summary
  rolled_back_summary : String → Summary

pub record JobResult : Type 0 where
  pub status : String
  pub summary : Summary
  pub warnings : List TransactionStoreError
  pub job_id : String
  pub needs_reboot : Bool
  pub rollback_ref : Option String
  pub transaction_id : String

-- The variants of `DaemonResponse` that an execution, a preview and a description send.
pub data Frame : Type 0 where
  job_started : String → String → String → Frame
  job_progress : String → Line → Frame
  job_completed : String → JobResult → Frame
  error_response : String → String → Message → Frame
  preview_response : String → PreviewEnvelope → String → Frame
  describe_response : String → String → String → Bool → Frame

-- The store, the actions that were run and the frames that were sent, both in their order, and the
-- number of frames that the peer takes before its connection is gone.
pub record World : Type 0 where
  pub store : TransactionStore
  pub ran : List ActionSpec
  pub sent : List Frame
  pub frames_left : ℕ

unfoldable pub send_response : Frame → World → World × Bool
send_response f w = elim w.frames_left [
  | zero ↦ (w, false)
  | suc n ↦ (record w { sent = w.sent ++ f ∷ []; frames_left = n }, true)
]

unfoldable pub send_error : String → String → Message → World → World × Bool
send_error request_id category message w =
    send_response (error_response request_id category message) w

-- `let _ = send_response(…)` of a line of progress
unfoldable pub progress : String → Line → World → World
progress job_id line w = (send_response (job_progress job_id line) w).0

-- The lines that a command prints; an empty one is not sent.
unfoldable pub progress_lines : String → List String → World → World
progress_lines job_id [] w = w
progress_lines job_id (l ∷ lines) w =
    progress_lines job_id lines (if str_eq l "" then w else progress job_id (printed l) w)

unfoldable pub job_state_str : JobState → String
job_state_str queued = "queued"
job_state_str running = "running"
job_state_str succeeded = "succeeded"
job_state_str failed = "failed"
job_state_str canceled = "canceled"
job_state_str rolled_back = "rolled_back"
job_state_str needs_reboot = "needs_reboot"

abbrev pub note_run : ActionSpec → World → World
note_run spec w = record w { ran = w.ran ++ spec ∷ [] }

-- The match on the mechanism: a command streams its lines.
unfoldable pub run_mechanism :
    Executor → String → ActionSpec → ActionMechanism → World → World × Outcome
run_mechanism x job_id spec (command program args) w =
    let (lines, outcome) = x.run_command program args in (progress_lines job_id lines w, outcome)
run_mechanism x job_id spec _ w = (w, x.execute_spec spec)

unfoldable pub run_action : Executor → String → ActionSpec → World → World × Outcome
unfolding run_mechanism
run_action x job_id spec w = run_mechanism x job_id spec spec.mechanism (note_run spec w)

unfoldable pub initial_result : String → ActionSpec → Outcome → JobState × Summary
initial_result action_name spec (ran_to_end out) =
    if is_success out
    then if spec.reboot_required
      then (needs_reboot, reboot_required_summary action_name)
      else (succeeded, succeeded_summary action_name)
    else (failed, failed_with_code action_name out.exit_code)
initial_result action_name spec (executor_error e) = (failed, failed_with_error action_name e)

unfoldable pub completion_line : String → Outcome → Line
completion_line action_name (ran_to_end out) = completed_with_code action_name out.exit_code
completion_line action_name (executor_error e) = completed_with_error action_name e

abbrev pub rolled : Outcome → Bool
rolled (ran_to_end out) = is_success out
rolled (executor_error e) = false

-- The world, and the status, summary and reference of the result.
unfoldable pub attempt_rollback_if_needed :
    Executor
    → String
    → String
    → ActionSpec
    → JobState
    → Summary
    → World
    → World × (JobState × Summary × Option String)
attempt_rollback_if_needed x job_id action_name spec status summary w =
    if not (same_state status failed)
    then (w, (status, summary, none))
    else if not spec.rollback_available
    then (w, (status, summary, none))
    else elim (x.rollback_spec_for action_name) [
      | none ↦ (w, (status, summary, none))
      | some rb_spec ↦
          let w1 = note_run rb_spec (progress job_id (attempting_rollback action_name) w) in
          let outcome = x.execute rb_spec in
          if rolled outcome
          then (
            progress job_id rollback_succeeded w1,
            (rolled_back, rolled_back_summary action_name, some "rpm-ostree rollback"),
          )
          else (progress job_id (rollback_failed outcome) w1, (status, summary, none))
    ]

-- The end of an execution: the record of the status, and the last frame.
unfoldable pub finish : String → String → JobState → Summary → Option String → World → World × Bool
finish job_id transaction_id status summary rollback_ref w =
    let (store, updated) = update_status transaction_id status w.store in
    send_response
      (job_completed job_id (record {
        status = job_state_str status;
        summary = summary;
        warnings = elim updated [ ok _ ↦ [] | err e ↦ e ∷ [] ];
        job_id = job_id;
        needs_reboot = same_state status needs_reboot;
        rollback_ref = rollback_ref;
        transaction_id = transaction_id;
      }))
      (record w { store = store })

-- `handle_execute` from the frame `JobStarted` on.
unfoldable pub run_claimed :
    Executor → String → String → String → ActionSpec → String → World → World × Bool
run_claimed x job_id request_id action_name spec transaction_id w =
    let (w1, started) = send_response (job_started request_id job_id transaction_id) w in
    if not started
    then (w1, false)
    else let w2 =
        progress job_id (executing action_name)
          (progress job_id (authorization_passed action_name) w1) in
      let (w3, outcome) = run_action x job_id spec w2 in
      let (initial_status, initial_summary) = initial_result action_name spec outcome in
      let w4 = progress job_id (completion_line action_name outcome) w3 in
      let (w5, (status, summary, rollback_ref)) =
        attempt_rollback_if_needed x job_id action_name spec initial_status initial_summary w4 in
      finish job_id transaction_id status summary rollback_ref w5

-- `compute_request_hash`, and the reading of stored warnings, are arguments; `limit` is the time limit
-- of the search and `job_id` the new id. The result is false for a `HandlerError`.
module _ (compute_request_hash : String → Value → String)
    (warnings_of_json : String → Option (List String)) where
  unfoldable pub handle_execute :
      PolicyTable
      → Executor
      → String
      → String
      → CallerRole
      → String
      → String
      → Value
      → String
      → World
      → World × Bool
  handle_execute policy x limit job_id caller_role request_id action_name params approval_hash w =
      elim (x.build_action_spec action_name params) [
        | none ↦ send_error request_id "validation_failure" (invalid_action action_name) w
        | some spec ↦
            if not (table_action_allowed policy caller_role action_name)
            then send_error request_id "authorization_failure" (not_allowed action_name caller_role)
                w
            else let stored_hash = compute_request_hash action_name params in
              elim (require_fresh_approval stored_hash approval_hash) [
                | stale e ↦ send_error request_id "stale_approval" (not_fresh e) w
                | fresh ↦ elim (find_by_request_hash warnings_of_json stored_hash limit w.store) [
                  | err e ↦
                      send_error request_id "transient_infrastructure_failure" (lookup_failed e) w
                  | ok none ↦ send_error request_id "stale_approval" no_prior_preview w
                  | ok (some tx) ↦
                      let (store, claimed) = claim_for_execution tx.transaction_id w.store in
                      let w1 = record w { store = store } in
                      if not claimed
                      then send_error request_id "stale_approval" already_claimed w1
                      else run_claimed x job_id request_id action_name spec tx.transaction_id w1
                ]
              ]
      ]
