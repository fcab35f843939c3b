-- ===== src/Examples/Execute.antt =====
-- The execution of a request. In place of the executor, and of the hash of a request, stand constant
-- functions.
use lacs.Prelude.{String, ◌≡◌, ◌⊎◌, refl, false, none, some, [], ◌∷◌}
use lacs.Json.{Value, null}
use lacs.Types.{dev, medium, JobState, running, TransactionRecord}
use lacs.Policy.{PolicyTable}
use lacs.Executor.{ActionSpec, command, ran_to_end, Executor, pos, Outcome}
use lacs.Table.{by_id, Row}
use lacs.Transactions.{claim_for_execution}
use lacs.Dispatcher.{World, handle_execute, run_claimed}
use lacs.Dispatcher.Gate.{Approved, OneError, handle_execute_cases}
use lacs.Dispatcher.Outcomes.{Settles}
use lacs.Dispatcher.Settles.{run_claimed-Settles}
use lacs.Examples.Store.{no_warnings, row, one_row, one_row-there}

abbrev request_hash : String → Value → String
request_hash _ null = "h1"
request_hash _ _ = "h2"

abbrev spec : ActionSpec
spec = record {
  action_name = "AptInstall";
  mechanism = command "apt-get" ("install" ∷ "htop" ∷ []);
  risk_level = medium;
  reboot_required = false;
  rollback_available = false;
}

abbrev done : Outcome
done = ran_to_end (record { stdout = "ok\n"; stderr = ""; exit_code = pos 0 })

abbrev executor : Executor
executor = record {
  build_action_spec = λ _ _. some spec;
  rollback_spec_for = λ _. none;
  run_command = λ _ _. ("ok" ∷ [], done);
  execute_spec = λ _. done;
  execute = λ _. done;
}

abbrev policy : PolicyTable
policy = record { overrides = [] }

-- yesterday
abbrev limit : String
limit = "2026-01-01 00:00:00"

abbrev world : World
world = record { store = one_row; ran = []; sent = []; frames_left = 9 }

handle_execute_cases_example :
    ((a : Approved request_hash no_warnings policy executor limit dev "AptInstall" null "h1"
        one_row)
      × (handle_execute request_hash no_warnings policy executor limit "j1" dev "r1" "AptInstall"
            null "h1" world
          ≡ run_claimed executor "j1" "r1" "AptInstall" a.spec a.tx.transaction_id
              (record world { store = (claim_for_execution a.tx.transaction_id one_row).0 })))
    ⊎ OneError "r1" world (
        handle_execute request_hash no_warnings policy executor limit "j1" dev "r1" "AptInstall"
          null "h1" world)
    ⊎ ((tx : TransactionRecord) × ((claim_for_execution tx.transaction_id one_row).1 ≡ false)
        × OneError "r1"
            (record world { store = (claim_for_execution tx.transaction_id one_row).0 })
            (handle_execute request_hash no_warnings policy executor limit "j1" dev "r1"
              "AptInstall" null "h1" world))
handle_execute_cases_example =
    handle_execute_cases request_hash no_warnings policy executor limit "j1" dev "r1" "AptInstall"
      null "h1" world

run_claimed-Settles_example :
    let result =
      run_claimed executor "j1" "r1" "AptInstall" spec "t1"
        (record world { store = (claim_for_execution "t1" one_row).0 }) in
    ((world.frames_left ≡ 0)
      × (result.1 ≡ false)
      × (result.0.ran ≡ [])
      × (by_id "t1" result.0.store.rows ≡ some (record row { status = running })))
    ⊎ ((s : JobState) × Settles executor "AptInstall" spec [] result.0.ran s
        × (by_id "t1" result.0.store.rows ≡ some (record row { status = s })))
run_claimed-Settles_example =
    run_claimed-Settles executor "j1" "r1" "AptInstall" spec "t1" world row one_row-there refl

abbrev found : Row → TransactionRecord
found r = record {
  transaction_id = r.transaction_id;
  request_id = r.request_id;
  request_hash = r.request_hash;
  action_name = r.action_name;
  risk_level = r.risk_level;
  status = r.status;
  approval_id = r.approval_id;
  summary = r.summary;
  warnings = [];
}
