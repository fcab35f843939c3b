-- ===== src/Transactions/Claims.antt =====
-- Replay protection: what becomes of a transaction of crates/sysknife-daemon/src/transactions.rs that
-- was claimed.
use lacs.Prelude.{
  ℕ, String, ◌≡◌, inl, inr, refl, true, false, Option, none, some, List, [], ◌∷◌, arith,
  Option-cases,
}
use lacs.Types.{running, canceled, same_state, PreviewEnvelope, TransactionRecord}
use lacs.AuditChain.{AuditKey}
use lacs.Transactions.{
  NewTransaction, TransactionStore, ok, claim_for_execution, cleanup_stale_queued,
  find_by_request_hash, record_transaction, record_previewed,
}
use lacs.Transactions.Chain.{
  Inserts, record_transaction-Inserts, record_previewed-Inserts, Op, record_op, preview_op,
  status_op, claim_op, cleanup_op, apply, apply_all,
}
use lacs.Transactions.Spent.{
  Spent, insert_row-Spent, update_where-Spent, update_status-Spent, claim-Spent, claim_of_Spent,
  find_of_Spent,
}

module _ (hmac_hex : List ℕ → List ℕ → String) (warnings_to_json : List String → String) where
  Inserts-Spent :
      (id : String) (key : AuditKey) (other created_at : String) (t : NewTransaction)
      (store after : TransactionStore)
      → Inserts hmac_hex warnings_to_json key other created_at t store after
      → Spent id store.rows
      → Spent id after.rows
  Inserts-Spent id key other created_at t store after (inl e) h = rw e h
  Inserts-Spent id key other created_at t store after (inr (rows, previews, inserted, e)) h =
      rw e (insert_row-Spent id _ store.rows rows inserted h)

  pub record_transaction_no_key :
      (other created_at : String) (t : NewTransaction) (store : TransactionStore)
      → store.audit_key ≡ none
      → (record_transaction hmac_hex warnings_to_json other created_at t store).0 ≡ store
  unfolding record_transaction
  record_transaction_no_key other created_at t store e = ground arith

  pub record_previewed_no_key :
      (other created_at : String) (t : NewTransaction) (p : PreviewEnvelope)
      (store : TransactionStore)
      → store.audit_key ≡ none
      → (record_previewed hmac_hex warnings_to_json other created_at t p store).0 ≡ store
  unfolding record_previewed
  record_previewed_no_key other created_at t p store e = ground arith

  record_transaction-Spent :
      (id other created_at : String) (t : NewTransaction) (store : TransactionStore)
      → Spent id store.rows
      → Spent id (record_transaction hmac_hex warnings_to_json other created_at t store).0.rows
  record_transaction-Spent id other created_at t store h = elim (Option-cases store.audit_key) [
    | inl e ↦ rw (record_transaction_no_key other created_at t store e) h
    | inr (key, e) ↦
        Inserts-Spent id key other created_at t store _
          (record_transaction-Inserts hmac_hex warnings_to_json key other created_at t store e) h
  ]

  record_previewed-Spent :
      (id other created_at : String) (t : NewTransaction) (p : PreviewEnvelope)
      (store : TransactionStore)
      → Spent id store.rows
      → Spent id (record_previewed hmac_hex warnings_to_json other created_at t p store).0.rows
  record_previewed-Spent id other created_at t p store h = elim (Option-cases store.audit_key) [
    | inl e ↦ rw (record_previewed_no_key other created_at t p store e) h
    | inr (key, e) ↦
        Inserts-Spent id key other created_at t store _
          (record_previewed-Inserts hmac_hex warnings_to_json key other created_at t p store e) h
  ]

  apply-Spent :
      (id : String) (op : Op) (store : TransactionStore)
      → Spent id store.rows
      → Spent id (apply hmac_hex warnings_to_json op store).rows
  unfolding apply claim_for_execution cleanup_stale_queued
  apply-Spent id (record_op other created_at t) store h =
      record_transaction-Spent id other created_at t store h
  apply-Spent id (preview_op other created_at t p) store h =
      record_previewed-Spent id other created_at t p store h
  apply-Spent id (status_op other s) store h = update_status-Spent id other s store h
  apply-Spent id (claim_op other) store h =
      update_where-Spent id _ running store.rows (unfold same_state in refl) h
  apply-Spent id (cleanup_op limit) store h =
      update_where-Spent id _ canceled store.rows (unfold same_state in refl) h

  apply_all-Spent :
      (id : String) (ops : List Op) (store : TransactionStore)
      → Spent id store.rows
      → Spent id (apply_all hmac_hex warnings_to_json ops store).rows
  unfolding apply_all
  apply_all-Spent id [] store h = h
  apply_all-Spent id (op ∷ ops) store h =
      apply_all-Spent id ops (apply hmac_hex warnings_to_json op store) (apply-Spent id op store h)

  -- After a claim that succeeded, and whatever calls follow it, another claim of the same
  -- transaction fails, and a search for an approved request never returns that transaction.
  pub claimed_once :
      (id : String) (store : TransactionStore) (ops : List Op)
      → (claim_for_execution id store).1 ≡ true
      → let after = apply_all hmac_hex warnings_to_json ops (claim_for_execution id store).0 in
        ((claim_for_execution id after).1 ≡ false)
        × ((warnings_of_json : String → Option (List String)) (hash limit : String)
              (t : TransactionRecord)
            → ¬ (
                (find_by_request_hash warnings_of_json hash limit after ≡ ok (some t))
                × (t.transaction_id ≡ id)))
  claimed_once id store ops h =
      let spent =
        apply_all-Spent id ops (claim_for_execution id store).0 (claim-Spent id store h) in
      (
        claim_of_Spent id _ spent,
        λ warnings_of_json hash limit t found.
            find_of_Spent warnings_of_json id hash limit _ t spent found.0 found.1,
      )
