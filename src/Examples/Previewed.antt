-- ===== src/Examples/Previewed.antt =====
-- A preview and the execution that it allows, on an empty store.
use lacs.Prelude.{
  ℕ, String, ◌≡◌, ◌≢◌, refl, Bool, true, false, Option, none, some, List, [], ◌∷◌, ◌++◌, false≢true,
  eq_iff,
}
use lacs.Json.{Value, null}
use lacs.Types.{admin, PreviewEnvelope}
use lacs.Policy.{PolicyTable, table_action_allowed}
use lacs.Executor
use lacs.Executor.{Executor, Outcome}
use lacs.Table.{by_id, later}
use lacs.Transactions.{Database, open_with_key, claim_for_execution, preview?}
use lacs.Dispatcher.{World, preview_response, run_claimed, handle_execute}
use lacs.Dispatcher.Previews.{built, handle_preview}
use lacs.Dispatcher.Ready.{preview_then_execute}
use lacs.Examples.Store.{toy_hex, key}
use lacs.Preview.{preview_profile}
use lacs.Build.{rollback_spec_for}
use lacs.Examples.Actions.{std, update, update_built, no_overrides}

-- One text stands for the warnings of the preview.
abbrev to_json : List String → String
to_json ws = "[…]"

abbrev of_json : String → Option (List String)
of_json s = some (preview_profile "UpdateSystem").warnings

abbrev hash : String → Value → String
hash name params = "h1"

abbrev done : Outcome
done = Executor.ran_to_end (record { stdout = "ok\n"; stderr = ""; exit_code = Executor.pos 0 })

abbrev executor : Executor
executor = record {
  build_action_spec = built std;
  rollback_spec_for = rollback_spec_for;
  run_command = λ _ _. ("ok" ∷ [], done);
  execute_spec = λ _. done;
  execute = λ _. done;
}

-- a database file without tables
abbrev new_file : Database
new_file = record { transactions = none; transaction_previews = none }

abbrev empty : World
empty = record { store = open_with_key key new_file; ran = []; sent = []; frames_left = 9 }

admin_updates : table_action_allowed no_overrides admin "UpdateSystem" ≡ true
unfolding table_action_allowed lacs.Policy.table_min_role lacs.Policy.min_role_for_action
    lacs.Policy.Allowlist.observer_actions lacs.Policy.Allowlist.dev_actions
    lacs.Policy.Allowlist.admin_actions lacs.Policy.lookup lacs.Auth.role_rank
admin_updates = refl

opened : empty.store.audit_key ≡ some key
unfolding open_with_key
opened = refl

new_id : by_id "t1" empty.store.rows ≡ none
unfolding open_with_key by_id
new_id = refl

new_preview : preview? "t1" empty.store.previews ≡ none
unfolding open_with_key preview?
new_preview = refl

in_time : later "2026-01-01 00:10:00" "2026-01-01 00:05:00" ≡ true
unfolding later lacs.Prelude.Text.bytes_lt lacs.Prelude.Text.as_bytes
in_time = refl

hash_given : hash "UpdateSystem" null ≢ ""
hash_given e = false≢true ((eq_iff "h1" "").1 e)

preview_then_execute_example :
    (w1 : World) × (preview : PreviewEnvelope) × (handle_preview toy_hex to_json hash std
        no_overrides "t1" "2026-01-01 00:10:00" null admin "r1" "UpdateSystem" null empty
      ≡ (w1, true))
    × (w1.sent ≡ empty.sent ++ preview_response "r1" preview "t1" ∷ [])
    × (preview.request_hash.text ≡ "h1")
    × (handle_execute hash of_json no_overrides executor "2026-01-01 00:05:00" "j1" admin "r2"
          "UpdateSystem" null preview.request_hash.text w1
        ≡ run_claimed executor "j1" "r2" "UpdateSystem" update "t1"
            (record w1 { store = (claim_for_execution "t1" w1.store).0 }))
preview_then_execute_example =
    preview_then_execute toy_hex to_json of_json hash std no_overrides executor key "t1"
      "2026-01-01 00:10:00" "2026-01-01 00:05:00" "j1" null admin admin "r1" "r2" "UpdateSystem"
      null update 8 empty refl hash_given refl update_built admin_updates admin_updates opened
      new_id new_preview refl in_time
