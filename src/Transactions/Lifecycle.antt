-- ===== src/Transactions/Lifecycle.antt =====
-- What a call on the store does to a transaction that is there.
use lacs.Prelude.{
  ℕ, String, ◌≡◌, ◌⊎◌, inl, inr, refl, sym, ap, subst, ◌∙◌, Bool, true, some, List, [], ◌∷◌, ◌++◌,
  arith, Option-cases, Bool-cases, str_eq, eq_iff,
}
use lacs.Types.{JobState, queued, running, canceled, same_state}
use lacs.Jobs.Lifecycle.{Edge, start, drop_queued, allowed-Edge}
use lacs.AuditChain.{AuditKey}
use lacs.Table.{Row, chain_row, by_id, update_where, insert_row}
use lacs.Transactions.{
  NewTransaction, TransactionStore, update_status, claim_for_execution, cleanup_stale_queued,
  new_row,
}
use lacs.Transactions.Chain.{
  Op, record_op, preview_op, status_op, claim_op, cleanup_op, apply, update_status_cases, Inserts,
  record_transaction-Inserts, record_previewed-Inserts,
}
use lacs.Transactions.Spent.{by_id-append, by_id-update_where}
use lacs.Transactions.Claims.{record_transaction_no_key, record_previewed_no_key}

-- How a row may look after a call.
pub record Moves (id : String) (r : Row) (rows : List Row) : Type 0 where
  pub row : Row
  pub present : by_id id rows ≡ some row
  pub moved : (row.status ≡ r.status) ⊎ Edge r.status row.status
  pub kept : chain_row row ≡ chain_row r

pub by_id-id :
    (id : String) (rows : List Row) (r : Row) → by_id id rows ≡ some r → r.transaction_id ≡ id
unfolding by_id
by_id-id id [] r h = absurd (cc)
by_id-id id (x ∷ rows) r h = elim (Bool-cases (str_eq x.transaction_id id)) [
  | inl same ↦
      let found : x ≡ r = ground arith in
      ap (λ (y : Row). y.transaction_id) (sym found) ∙ (eq_iff x.transaction_id id).0 same
  | inr other ↦ by_id-id id rows r (ground arith)
]

update_where-Moves :
    (id : String) (p : Row → Bool) (s : JobState) (rows : List Row) (r : Row)
    → by_id id rows ≡ some r
    → (p r ≡ true → Edge r.status s)
    → Moves id r (update_where p s rows).0
update_where-Moves id p s rows r h edge = elim (Bool-cases (p r)) [
  | inl hit ↦ record {
    row = record r { status = s };
    present = by_id-update_where id p s rows r h ∙ ap some (rw hit);
    moved = inr (edge hit);
    kept = unfold chain_row in refl;
  }
  | inr miss ↦ record {
    row = r;
    present = by_id-update_where id p s rows r h ∙ ap some (rw miss);
    moved = inl refl;
    kept = refl;
  }
]

stays : (id : String) (rows : List Row) (r : Row) → by_id id rows ≡ some r → Moves id r rows
stays id rows r h = record { row = r; present = h; moved = inl refl; kept = refl }

queued-eq : (s : JobState) → same_state s queued ≡ true → s ≡ queued
unfolding same_state
queued-eq s h = ground arith

queued-Edge : (s t : JobState) → Edge queued t → same_state s queued ≡ true → Edge s t
queued-Edge s t e h = subst (λ u. Edge u t) (sym (queued-eq s h)) e

update_status-Moves :
    (id other : String) (s : JobState) (store : TransactionStore) (r : Row)
    → by_id id store.rows ≡ some r
    → Moves id r (update_status other s store).0.rows
update_status-Moves id other s store r h = elim (update_status_cases other s store) [
  | inl e ↦ rw e (stays id store.rows r h)
  | inr (row, found, allowed, e) ↦ rw e (
      update_where-Moves id (λ x. str_eq x.transaction_id other) s store.rows r h
        (λ (hit : str_eq r.transaction_id other ≡ true).
          let same : id ≡ other =
            sym (by_id-id id store.rows r h) ∙ (eq_iff r.transaction_id other).0 hit in
          let one : some row ≡ some r = sym found ∙ ap (λ i. by_id i store.rows) (sym same) ∙ h in
          let same_row : row ≡ r = ground (arith, one) in
          subst (λ (x : Row). Edge x.status s) same_row (allowed-Edge row.status s allowed)))
]

module _ (hmac_hex : List ℕ → List ℕ → String) (warnings_to_json : List String → String) where
  Inserts-Moves :
      (id : String) (key : AuditKey) (other created_at : String) (t : NewTransaction)
      (store after : TransactionStore) (r : Row)
      → by_id id store.rows ≡ some r
      → Inserts hmac_hex warnings_to_json key other created_at t store after
      → Moves id r after.rows
  unfolding insert_row
  Inserts-Moves id key other created_at t store after r h (inl e) = rw e (stays id store.rows r h)
  Inserts-Moves id key other created_at t store after r h (inr (rows, previews, inserted, e)) =
      let x = new_row hmac_hex warnings_to_json key store.rows other created_at t in
      let grown : store.rows ++ x ∷ [] ≡ rows = ground arith in
      rw e (
        subst (Moves id r) grown
          (stays id (store.rows ++ x ∷ []) r (by_id-append id store.rows (x ∷ []) r h)))

  -- A call leaves a transaction that is there in its status, or moves it along one edge of the job's
  -- state machine; every column that the chain hashes stays as it was.
  pub apply-Moves :
      (op : Op) (id : String) (store : TransactionStore) (r : Row)
      → by_id id store.rows ≡ some r
      → Moves id r (apply hmac_hex warnings_to_json op store).rows
  unfolding apply claim_for_execution cleanup_stale_queued
  apply-Moves (record_op other created_at t) id store r h = elim (Option-cases store.audit_key) [
    | inl e ↦
        rw (record_transaction_no_key hmac_hex warnings_to_json other created_at t store e)
          (stays id store.rows r h)
    | inr (key, e) ↦
        Inserts-Moves id key other created_at t store _ r h
          (record_transaction-Inserts hmac_hex warnings_to_json key other created_at t store e)
  ]
  apply-Moves (preview_op other created_at t p) id store r h = elim (Option-cases store.audit_key) [
    | inl e ↦
        rw (record_previewed_no_key hmac_hex warnings_to_json other created_at t p store e)
          (stays id store.rows r h)
    | inr (key, e) ↦
        Inserts-Moves id key other created_at t store _ r h
          (record_previewed-Inserts hmac_hex warnings_to_json key other created_at t p store e)
  ]
  apply-Moves (status_op other s) id store r h = update_status-Moves id other s store r h
  apply-Moves (claim_op other) id store r h =
      update_where-Moves id _ running store.rows r h
        (λ hit. queued-Edge r.status running start (ground arith))
  apply-Moves (cleanup_op limit) id store r h =
      update_where-Moves id _ canceled store.rows r h
        (λ hit. queued-Edge r.status canceled drop_queued (ground arith))
