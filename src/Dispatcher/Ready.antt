-- ===== src/Dispatcher/Ready.antt =====
-- crates/sysknife-daemon/src/dispatcher.rs: an execution after the preview of the same request.
use lacs.Prelude.{
  ℕ, suc, String, ◌≡◌, ◌≢◌, refl, ap, ◌∙◌, inl, inr, true, ◌&&◌, Option, none, some, List, [], ◌∷◌,
  ◌++◌, str_eq, eq_refl,
}
use lacs.Json.{Value}
use lacs.Types.{CallerRole, queued, running, same_state, PreviewEnvelope}
use lacs.AuditChain.{AuditKey}
use lacs.Policy.{PolicyTable, table_action_allowed, require_fresh_approval, fresh}
use lacs.Policy.Freshness.{require_fresh_approval_cases}
use lacs.Executor
use lacs.Executor.{ActionSpec, Executor}
use lacs.Params.{Std}
use lacs.Build.{build_action_spec}
use lacs.Table.{Row, by_id, later}
use lacs.Transactions.{
  TransactionStore, NewTransaction, ok, new_row, new_record, preview?, record_previewed,
  find_by_request_hash, claim_for_execution, optional_record, row_to_record, next_seq_and_prev_hash,
}
use lacs.Transactions.Fresh.{next-Below, latest-where_rows-last, update_where-last, insert_row-next}
use lacs.Dispatcher.{World, preview_response, send_response, run_claimed, handle_execute}
use lacs.Preview.{preview_action, preview_profile}
use lacs.Dispatcher.Previews.{handle_preview, built, envelope, new_transaction}

passes :
    (hash created_at limit : String)
    → later created_at limit ≡ true
    → (str_eq hash hash && (same_state queued queued && later created_at limit)) ≡ true
unfolding same_state
passes hash created_at limit h = rw (eq_refl hash) h

queued_with_id : (id : String) → (str_eq id id && same_state queued queued) ≡ true
unfolding same_state
queued_with_id id = rw (eq_refl id) refl

module _ (hmac_hex : List ℕ → List ℕ → String) (warnings_to_json : List String → String)
    (warnings_of_json : String → Option (List String)) (key : AuditKey) (id created_at : String)
    (t : NewTransaction) (store : TransactionStore) where
  abbrev row : Row
  row = new_row hmac_hex warnings_to_json key store.rows id created_at t

  abbrev with_key : Option AuditKey → PreviewEnvelope → TransactionStore
  with_key k p = record {
    audit_key = k;
    rows = store.rows ++ row ∷ [];
    previews = (id, p) ∷ store.previews;
  }

  abbrev after : PreviewEnvelope → TransactionStore
  after = with_key (some key)

  recorded :
      (p : PreviewEnvelope)
      → store.audit_key ≡ some key
      → by_id id store.rows ≡ none
      → preview? id store.previews ≡ none
      → record_previewed hmac_hex warnings_to_json id created_at t p store
        ≡ (after p, ok (new_record hmac_hex warnings_to_json id t, p))
  unfolding new_row next_seq_and_prev_hash record_previewed
  recorded p opened new_id new_preview =
      let inserted = insert_row-next row store.rows new_id refl in
      rw (opened, inserted, new_preview, record_previewed)
        (ap (λ k. (with_key k p, ok (new_record hmac_hex warnings_to_json id t, p))) opened)

  found :
      (p : PreviewEnvelope) (limit : String)
      → warnings_of_json (warnings_to_json t.warnings) ≡ some t.warnings
      → later created_at limit ≡ true
      → find_by_request_hash warnings_of_json t.request_hash limit (after p)
        ≡ ok (some (new_record hmac_hex warnings_to_json id t))
  unfolding find_by_request_hash new_row new_record optional_record row_to_record
  found p limit reads_back in_time =
      rw
        (latest-where_rows-last _ store.rows row (next-Below store.rows)
          (passes t.request_hash created_at limit in_time))
        (rw (reads_back, optional_record) refl)

  claimed : (p : PreviewEnvelope) → (claim_for_execution id (after p)).1 ≡ true
  unfolding claim_for_execution new_row
  claimed p = update_where-last _ running store.rows row (queued_with_id id)

fresh_of : (hash : String) → hash ≢ "" → require_fresh_approval hash hash ≡ fresh
fresh_of hash given = elim (require_fresh_approval_cases hash hash) [
  | inl (same, there, passed) ↦ passed
  | inr (stale, error) ↦ absurd (stale (refl, given))
]

module _ (hmac_hex : List ℕ → List ℕ → String) (warnings_to_json : List String → String)
    (warnings_of_json : String → Option (List String))
    (compute_request_hash : String → Value → String) (std : Std) (policy : PolicyTable)
    (x : Executor) (key : AuditKey) where
  built_of :
      (name : String) (params : Value) (spec : ActionSpec)
      → build_action_spec std name params ≡ Executor.ok spec
      → built std name params ≡ some spec
  unfolding built
  built_of name params spec builds = rw (builds, built) refl

  module _ (id created_at : String) (state : Value) (caller : CallerRole) (request_id name : String)
      (params : Value) (spec : ActionSpec) (n : ℕ) (w : World) where
    abbrev shown : PreviewEnvelope
    shown = envelope (compute_request_hash name params) state caller request_id name params

    abbrev tx : NewTransaction
    tx = new_transaction (compute_request_hash name params) request_id name spec shown

    abbrev store_after : TransactionStore
    store_after =
        after hmac_hex warnings_to_json warnings_of_json key id created_at tx w.store shown

    abbrev previewed : World
    previewed = record {
      store = store_after;
      ran = w.ran;
      sent = w.sent ++ preview_response request_id shown id ∷ [];
      frames_left = n;
    }

    previewed_lem :
        build_action_spec std name params ≡ Executor.ok spec
        → table_action_allowed policy caller name ≡ true
        → w.store.audit_key ≡ some key
        → by_id id w.store.rows ≡ none
        → preview? id w.store.previews ≡ none
        → w.frames_left ≡ suc n
        → handle_preview hmac_hex warnings_to_json compute_request_hash std policy id created_at
            state caller request_id name params w
          ≡ (previewed, true)
    unfolding handle_preview send_response new_record preview_action
    previewed_lem builds allowed opened new_id new_preview alive =
        let stored =
          recorded hmac_hex warnings_to_json warnings_of_json key id created_at tx w.store shown
            opened new_id new_preview in
        rw (builds, allowed, stored, alive, handle_preview, send_response)
          (ap (λ r. (record previewed { store = r.0 }, true)) stored)

    executed_lem :
        (limit job_id : String) (other : CallerRole) (execute_id : String)
        → warnings_of_json (warnings_to_json (preview_profile name).warnings)
          ≡ some (preview_profile name).warnings
        → compute_request_hash name params ≢ ""
        → x.build_action_spec name params ≡ built std name params
        → build_action_spec std name params ≡ Executor.ok spec
        → table_action_allowed policy other name ≡ true
        → later created_at limit ≡ true
        → handle_execute compute_request_hash warnings_of_json policy x limit job_id other
            execute_id name params
            (compute_request_hash name params)
            previewed
          ≡ run_claimed x job_id execute_id name spec id
              (record previewed { store = (claim_for_execution id store_after).0 })
    unfolding handle_execute new_record preview_action
    executed_lem limit job_id other execute_id reads_back not_empty real builds also in_time =
        let fresh_hash = fresh_of (compute_request_hash name params) not_empty in
        let there =
          found hmac_hex warnings_to_json warnings_of_json key id created_at tx w.store shown limit
            reads_back in_time in
        let won =
          claimed hmac_hex warnings_to_json warnings_of_json key id created_at tx w.store shown in
        let same = real ∙ built_of name params spec builds in
        rw (same, also, fresh_hash, there, won, handle_execute) refl

  -- A caller who may run an action, with parameters of which it is built, and whose connection takes a
  -- frame, gets a preview of it with the hash of the request; an execution of the same request with
  -- this hash as its approval, by a caller who may run it and within the time limit, then passes all
  -- checks, claims the transaction of the preview and runs. The store was opened with a key and gives
  -- a new id, the hash is not empty, and the warnings of the preview are read as they were written.
  pub preview_then_execute :
      (id created_at limit job_id : String) (state : Value) (caller other : CallerRole)
      (request_id execute_id name : String) (params : Value) (spec : ActionSpec) (n : ℕ) (w : World)
      → warnings_of_json (warnings_to_json (preview_profile name).warnings)
        ≡ some (preview_profile name).warnings
      → compute_request_hash name params ≢ ""
      → x.build_action_spec name params ≡ built std name params
      → build_action_spec std name params ≡ Executor.ok spec
      → table_action_allowed policy caller name ≡ true
      → table_action_allowed policy other name ≡ true
      → w.store.audit_key ≡ some key
      → by_id id w.store.rows ≡ none
      → preview? id w.store.previews ≡ none
      → w.frames_left ≡ suc n
      → later created_at limit ≡ true
      → ((w1 : World) × (preview : PreviewEnvelope) × (handle_preview hmac_hex warnings_to_json
              compute_request_hash std policy id created_at state caller request_id name params w
            ≡ (w1, true))
          × (w1.sent ≡ w.sent ++ preview_response request_id preview id ∷ [])
          × (preview.request_hash.text ≡ compute_request_hash name params)
          × (handle_execute compute_request_hash warnings_of_json policy x limit job_id other
                execute_id name params preview.request_hash.text w1
              ≡ run_claimed x job_id execute_id name spec id
                  (record w1 { store = (claim_for_execution id w1.store).0 })))
  unfolding preview_action
  preview_then_execute id created_at limit job_id state caller other request_id execute_id name
        params spec n w reads_back not_empty real builds allowed also opened new_id new_preview
        alive in_time =
      (
        previewed id created_at state caller request_id name params spec n w,
        shown id created_at state caller request_id name params spec n w,
        previewed_lem id created_at state caller request_id name params spec n w builds allowed
            opened new_id new_preview alive,
        refl,
        refl,
        executed_lem id created_at state caller request_id name params spec n w limit job_id other
            execute_id reads_back not_empty real builds also in_time,
      )
