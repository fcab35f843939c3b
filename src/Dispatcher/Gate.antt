-- ===== src/Dispatcher/Gate.antt =====
-- The checks that `handle_execute` of crates/sysknife-daemon/src/dispatcher.rs makes.
use lacs.Prelude.{
  String, ◌≡◌, ◌≢◌, ◌⊎◌, inl, inr, refl, sym, ◌∙◌, Bool, true, false, Option, none, some, List,
  Option-cases, Bool-cases,
}
use lacs.Json.{Value}
use lacs.Types.{CallerRole, TransactionRecord}
use lacs.Policy.{PolicyTable, table_action_allowed, stale_approval}
use lacs.Policy.Freshness.{require_fresh_approval_cases}
use lacs.Executor.{ActionSpec, Executor}
use lacs.Transactions.{TransactionStore, Result, ok, err, find_by_request_hash, claim_for_execution}
use lacs.Dispatcher.{
  World, Message, invalid_action, not_allowed, not_fresh, no_prior_preview, lookup_failed,
  already_claimed, send_error, run_claimed, handle_execute,
}

-- `send_error` sends at most one frame, and does nothing else.
abbrev pub OneError : String → World → World × Bool → Type 0
OneError request_id w result =
    (category : String) × (message : Message) × (result ≡ send_error request_id category message w)

module _ (compute_request_hash : String → Value → String)
    (warnings_of_json : String → Option (List String)) where
  -- All that is checked, and the transaction that is claimed.
  pub record Approved (policy : PolicyTable) (x : Executor) (limit : String)
      (caller_role : CallerRole) (action_name : String) (params : Value) (approval_hash : String)
      (store : TransactionStore) : Type 0 where
    pub spec : ActionSpec
    pub tx : TransactionRecord
    pub built : x.build_action_spec action_name params ≡ some spec
    pub authorized : table_action_allowed policy caller_role action_name ≡ true
    pub approved : compute_request_hash action_name params ≡ approval_hash
    pub not_empty : approval_hash ≢ ""
    pub previewed : find_by_request_hash warnings_of_json approval_hash limit store ≡ ok (some tx)
    pub claimed : (claim_for_execution tx.transaction_id store).1 ≡ true

  Result-cases :
      (r : Result (Option TransactionRecord))
      → (r ≡ ok none)
        ⊎ ((e : lacs.Transactions.TransactionStoreError) × (r ≡ err e))
        ⊎ ((tx : TransactionRecord) × (r ≡ ok (some tx)))
  Result-cases (ok none) = inl refl
  Result-cases (ok (some tx)) = inr (inr (tx, refl))
  Result-cases (err e) = inr (inl (e, refl))

  -- An execution passes all checks and claims its transaction, and then runs; or it sends an error,
  -- having done at most a claim that failed, and runs nothing.
  pub handle_execute_cases :
      (policy : PolicyTable) (x : Executor) (limit job_id : String) (caller_role : CallerRole)
      (request_id action_name : String) (params : Value) (approval_hash : String) (w : World)
      → ((a : Approved policy x limit caller_role action_name params approval_hash w.store)
          × (handle_execute compute_request_hash warnings_of_json policy x limit job_id caller_role
                request_id action_name params approval_hash w
              ≡ run_claimed x job_id request_id action_name a.spec a.tx.transaction_id
                  (record w { store = (claim_for_execution a.tx.transaction_id w.store).0 })))
        ⊎ OneError request_id w (
            handle_execute compute_request_hash warnings_of_json policy x limit job_id caller_role
              request_id action_name params approval_hash w)
        ⊎ ((tx : TransactionRecord) × ((claim_for_execution tx.transaction_id w.store).1 ≡ false)
            × OneError request_id
                (record w { store = (claim_for_execution tx.transaction_id w.store).0 })
                (handle_execute compute_request_hash warnings_of_json policy x limit job_id
                  caller_role request_id action_name params approval_hash w))
  unfolding handle_execute
  handle_execute_cases policy x limit job_id role request_id name params approval w =
      elim (Option-cases (x.build_action_spec name params)) [
        | inl e ↦ inr (inl ("validation_failure", invalid_action name, rw (e, handle_execute)))
        | inr (spec, built) ↦ elim (Bool-cases (table_action_allowed policy role name)) [
          | inr refused ↦ inr (
              inl (
                "authorization_failure",
                not_allowed name role,
                rw (built, refused, handle_execute),
              ))
          | inl allowed ↦
              elim (require_fresh_approval_cases (compute_request_hash name params) approval) [
                | inr (_, old) ↦ inr (
                    inl (
                      "stale_approval",
                      not_fresh (stale_approval (compute_request_hash name params) approval),
                      rw (built, allowed, old, handle_execute),
                    ))
                | inl (same, given, passed) ↦
                    elim (Result-cases (
                      find_by_request_hash warnings_of_json (compute_request_hash name params) limit
                        w.store)) [
                          | inl missing ↦ inr (
                              inl (
                                "stale_approval",
                                no_prior_preview,
                                rw (built, allowed, passed, missing, handle_execute),
                              ))
                          | inr (inl (e, broken)) ↦ inr (
                              inl (
                                "transient_infrastructure_failure",
                                lookup_failed e,
                                rw (built, allowed, passed, broken, handle_execute),
                              ))
                          | inr (inr (tx, found)) ↦
                              elim (Bool-cases (claim_for_execution tx.transaction_id w.store).1) [
                                | inr lost ↦ inr (
                                    inr (
                                      tx,
                                      lost,
                                      (
                                        "stale_approval",
                                        already_claimed,
                                        rw (built, allowed, passed, found, lost, handle_execute),
                                      ),
                                    ))
                                | inl won ↦ inl (
                                  record {
                                    spec = spec;
                                    tx = tx;
                                    built = built;
                                    authorized = allowed;
                                    approved = same;
                                    not_empty = λ e. given (same ∙ e);
                                    previewed = rw (sym same) found;
                                    claimed = won;
                                  },
                                  rw (built, allowed, passed, found, won, handle_execute),
                                )
                              ]
                        ]
              ]
        ]
      ]
