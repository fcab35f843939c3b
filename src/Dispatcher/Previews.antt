-- ===== src/Dispatcher/Previews.antt =====
-- crates/sysknife-daemon/src/dispatcher.rs: `handle_preview` and `handle_describe`. The snapshot of the
-- host that a preview carries is an argument, the null value where it could not be taken; the copy of
-- the event for a SIEM is left out.
use lacs.Prelude.{
  ℕ, String, Bool, false, not, Option, none, some, List, [], ◌∷◌, str_eq, if◌then◌else◌,
}
use lacs.Json.{Value, string, object, field, end}
use lacs.Types.{CallerRole, RiskLevel, low, medium, high, PreviewEnvelope}
use lacs.Policy.{PolicyTable, table_action_allowed}
use lacs.Executor.{
  ActionSpec, ActionMechanism, command, file_scan, file_write, file_patch, file_delete, Result,
}
use lacs.Params.{Std}
use lacs.Actions.{concat}
use lacs.Build.{build_action_spec}
use lacs.Preview.{preview_action}
use lacs.Transactions.{NewTransaction, record_previewed}
use lacs.Dispatcher.Redaction.{redact_params, redact_argv}
use lacs.Dispatcher.{
  World, preview_response, describe_response, cannot_build, not_described, not_allowed,
  not_recorded, send_response, send_error,
}

-- What the executor of the daemon makes of `build_action_spec`: the spec, if there is one.
unfoldable pub built : Std → String → Value → Option ActionSpec
built std action_name params = elim (build_action_spec std action_name params) [
  | Result.ok spec ↦ some spec
  | Result.err e ↦ none
]

-- The redacted parameters that are stored and shown.
abbrev proposed_change : String → Value → Value
proposed_change action_name params =
    object
      (field "action" (string action_name) (field "params" (redact_params action_name params) end))

-- The envelope that `preview_action` fills in.
abbrev pub envelope : String → Value → CallerRole → String → String → Value → PreviewEnvelope
envelope request_hash current_state caller_role request_id action_name params =
    preview_action
      (record {
        action_name = action_name;
        request_id = request_id;
        params = params;
        caller_role = caller_role;
        request_hash = record { text = request_hash };
      })
      current_state (proposed_change action_name params)

abbrev pub new_transaction :
    String → String → String → ActionSpec → PreviewEnvelope → NewTransaction
new_transaction request_hash request_id action_name spec preview = record {
  request_id = request_id;
  request_hash = request_hash;
  action_name = action_name;
  risk_level = spec.risk_level;
  approval_id = none;
  summary = preview.summary;
  warnings = preview.warnings;
}

module _ (hmac_hex : List ℕ → List ℕ → String) (warnings_to_json : List String → String)
    (compute_request_hash : String → Value → String) where
  -- `transaction_id` and `created_at` are the new id and the time that the store takes.
  unfoldable pub handle_preview :
      Std
      → PolicyTable
      → String
      → String
      → Value
      → CallerRole
      → String
      → String
      → Value
      → World
      → World × Bool
  handle_preview std policy transaction_id created_at current_state caller_role request_id
        action_name params w =
      elim (build_action_spec std action_name params) [
        | Result.err e ↦ send_error request_id "validation_failure" (cannot_build e) w
        | Result.ok spec ↦
            if not (table_action_allowed policy caller_role action_name)
            then send_error request_id "authorization_failure" (not_allowed action_name caller_role)
                w
            else let preview =
                envelope (compute_request_hash action_name params) current_state caller_role
                  request_id action_name params in
              let new_tx =
                new_transaction (compute_request_hash action_name params) request_id action_name
                  spec preview in
              let (store, recorded) =
                record_previewed hmac_hex warnings_to_json transaction_id created_at new_tx preview
                  w.store in
              let w1 = record w { store = store } in
              elim recorded [
                | lacs.Transactions.Result.err e ↦
                    send_error request_id "transient_infrastructure_failure" (not_recorded e) w1
                | lacs.Transactions.Result.ok (tx, shown) ↦
                    send_response (preview_response request_id preview tx.transaction_id) w1
              ]
      ]

-- `join(" ")`
abbrev join_spaces : List String → String
join_spaces [] = ""
join_spaces (s ∷ []) = s
join_spaces (s ∷ t ∷ ss) = concat (s ∷ " " ∷ join_spaces (t ∷ ss) ∷ [])

unfoldable pub describe_mechanism : String → Value → ActionMechanism → String
describe_mechanism action_name params (command program args) =
    elim (redact_argv action_name params args) [
      | [] ↦ program
      | a ∷ display_args ↦ concat (program ∷ " " ∷ join_spaces (a ∷ display_args) ∷ [])
    ]
describe_mechanism action_name params (file_scan path) = concat ("read " ∷ path ∷ [])
describe_mechanism action_name params (file_write path content) = concat ("write " ∷ path ∷ [])
describe_mechanism action_name params (file_patch path search replace) =
    concat ("patch " ∷ path ∷ [])
describe_mechanism action_name params (file_delete path) = concat ("rm " ∷ path ∷ [])

-- `format!("{:?}", level).to_lowercase()`
abbrev risk_text : RiskLevel → String
risk_text low = "low"
risk_text medium = "medium"
risk_text high = "high"

unfoldable pub handle_describe : Std → String → Value → String → World → World × Bool
unfolding describe_mechanism
handle_describe std action_name params request_id w =
    if str_eq "ListJobHistory" action_name
    then send_response
        (describe_response request_id "query daemon job history (SQLite)" "low" false) w
    else elim (build_action_spec std action_name params) [
      | Result.err e ↦ send_error request_id "validation_failure" (not_described action_name e) w
      | Result.ok spec ↦
          send_response
            (describe_response request_id (describe_mechanism action_name params spec.mechanism)
              (risk_text spec.risk_level) spec.reboot_required)
            w
    ]
