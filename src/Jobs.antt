-- ===== src/Jobs.antt =====
-- crates/sysknife-daemon/src/jobs.rs: the life of a job, as a state machine. The theorems are in
-- `Jobs/Lifecycle`.
pub mod Lifecycle
use lacs.Prelude.{String, Bool, true, false, if◌then◌else◌}
use lacs.Types.{JobState, queued, running, succeeded, failed, canceled, rolled_back, needs_reboot}

pub data JobError : Type 0 where
  invalid_transition : JobState → JobState → JobError

pub data Result : Type 0 where
  ok : Result
  err : JobError → Result

pub record JobStateMachine : Type 0 where
  pub job_id : String
  pub state : JobState

unfoldable pub allowed_transition : JobState → JobState → Bool
allowed_transition queued running = true
allowed_transition queued canceled = true
allowed_transition running succeeded = true
allowed_transition running failed = true
allowed_transition running canceled = true
allowed_transition running rolled_back = true
allowed_transition running needs_reboot = true
allowed_transition _ _ = false

unfoldable pub new : String → JobStateMachine
new id = record { job_id = id; state = queued }

-- The machine after the call, and what the call returns.
unfoldable pub transition_to : JobStateMachine → JobState → JobStateMachine × Result
transition_to m next =
    if allowed_transition m.state next
    then (record m { state = next }, ok)
    else (m, err (invalid_transition m.state next))

unfoldable pub cancel : JobStateMachine → JobStateMachine × Result
cancel m = transition_to m canceled

-- The method `needs_reboot`.
unfoldable pub to_needs_reboot : JobStateMachine → JobStateMachine × Result
to_needs_reboot m = transition_to m needs_reboot

abbrev terminal : JobState → Bool
terminal succeeded = true
terminal failed = true
terminal canceled = true
terminal rolled_back = true
terminal needs_reboot = true
terminal _ = false

unfoldable pub is_terminal : JobStateMachine → Bool
is_terminal m = terminal m.state
