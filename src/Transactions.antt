-- ===== src/Transactions.antt =====
-- crates/sysknife-daemon/src/transactions.rs: the store. A method takes the store and returns it
-- with its result; an SQL transaction that fails leaves the tables as they were. What SQLite, uuid and
-- serde_json compute are arguments: the new id, the time of the insertion, the time limits
-- (`datetime('now', …)`), and the JSON text of the warnings. Errors of the file system and of a busy
-- database are not modelled. The theorems are in the child modules.
pub mod Fresh
pub mod Order
pub mod Chain
pub mod Lifecycle
pub mod Spent
pub mod Claims
pub mod Expiry
use Prim.Native.Nat.{min}
use lacs.Prelude.{
  take, ℕ, zero, suc, String, ◌+◌, Bool, true, false, ◌&&◌, not, Option, none, some, List, [], ◌∷◌,
  ◌++◌, map, ltb, leb, str_eq, if◌then◌else◌,
}
use lacs.Types.{
  RiskLevel, JobState, queued, running, succeeded, failed, canceled, rolled_back, needs_reboot,
  same_state, TransactionRecord, PreviewEnvelope,
}
use lacs.Jobs.{allowed_transition}
use lacs.AuditChain
use lacs.AuditChain.{AuditKey, ChainRow, VerifyOutcome, current_key_id, verify_chain}
use lacs.Table.{
  Row, chain_row, later, where_rows, latest, order_asc, order_desc, by_id, update_where, insert_row,
}

pub record NewTransaction : Type 0 where
  pub request_id : String
  pub request_hash : String
  pub action_name : String
  pub risk_level : RiskLevel
  pub approval_id : Option String
  pub summary : String
  pub warnings : List String

-- The two tables, and the key that the store was opened with.
pub record TransactionStore : Type 0 where
  pub audit_key : Option AuditKey
  pub rows : List Row
  pub previews : List (String × PreviewEnvelope)

pub data TransactionStoreError : Type 0 where
  sqlite json : TransactionStoreError
  not_found : String → TransactionStoreError
  invalid_transition : JobState → JobState → TransactionStoreError
  audit_chain_missing : TransactionStoreError

pub data Result {ℓ} (A : Type ℓ) : Type ℓ where
  ok : A → Result A
  err : TransactionStoreError → Result A

-- `CREATE TABLE IF NOT EXISTS`: a table that is there stays as it is.
unfoldable pub create_if_absent {ℓ} : {A : Type ℓ} → Option (List A) → List A
create_if_absent none = []
create_if_absent (some table) = table

-- The two tables of a database file, where they are there.
pub record Database : Type 0 where
  pub transactions : Option (List Row)
  pub transaction_previews : Option (List (String × PreviewEnvelope))

unfoldable pub open_read_only : Database → TransactionStore
unfolding create_if_absent
open_read_only db = record {
  audit_key = none;
  rows = create_if_absent db.transactions;
  previews = create_if_absent db.transaction_previews;
}

unfoldable pub open_with_key : AuditKey → Database → TransactionStore
unfolding create_if_absent
open_with_key key db = record {
  audit_key = some key;
  rows = create_if_absent db.transactions;
  previews = create_if_absent db.transaction_previews;
}

unfoldable pub next_seq_and_prev_hash : List Row → ℕ × String
next_seq_and_prev_hash rows = elim (latest rows) [
  | some r ↦ (r.seq + 1, r.chain_hash)
  | none ↦ (1, "")
]

-- `SELECT preview_json … WHERE transaction_id = ?`
unfoldable pub preview? : String → List (String × PreviewEnvelope) → Option PreviewEnvelope
preview? id [] = none
preview? id ((j, p) ∷ previews) =
    let rest = preview? id previews in if str_eq j id then some p else rest

-- `hmac_hex` as in `AuditChain`; `warnings_to_json` is `serde_json::to_string` on a list of texts.
module _ (hmac_hex : List ℕ → List ℕ → String) (warnings_to_json : List String → String) where
  -- The row that `insert_transaction` inserts.
  unfoldable pub new_row : AuditKey → List Row → String → String → NewTransaction → Row
  new_row key rows transaction_id created_at t =
      let (seq, prev_chain_hash) = next_seq_and_prev_hash rows in
      let warnings_json = warnings_to_json t.warnings in
      let chain_hash =
        AuditChain.chain_hash hmac_hex key
          (record {
            seq = seq;
            key_id = current_key_id;
            transaction_id = transaction_id;
            request_id = t.request_id;
            request_hash = t.request_hash;
            action_name = t.action_name;
            risk_level = t.risk_level;
            summary = t.summary;
            approval_id = t.approval_id;
            warnings_json = warnings_json;
            created_at = created_at;
          })
          prev_chain_hash in
      record {
        transaction_id = transaction_id;
        request_id = t.request_id;
        request_hash = t.request_hash;
        action_name = t.action_name;
        risk_level = t.risk_level;
        status = queued;
        approval_id = t.approval_id;
        summary = t.summary;
        warnings_json = warnings_json;
        created_at = created_at;
        seq = seq;
        key_id = current_key_id;
        chain_hash = chain_hash;
        prev_chain_hash = prev_chain_hash;
      }

  -- The record that `insert_transaction` returns.
  unfoldable pub new_record : String → NewTransaction → TransactionRecord
  new_record transaction_id t = record {
    transaction_id = transaction_id;
    request_id = t.request_id;
    request_hash = t.request_hash;
    action_name = t.action_name;
    risk_level = t.risk_level;
    status = queued;
    approval_id = t.approval_id;
    summary = t.summary;
    warnings = t.warnings;
  }

  -- the method `record`
  unfoldable pub record_transaction :
      String
      → String
      → NewTransaction
      → TransactionStore
      → TransactionStore × Result TransactionRecord
  unfolding new_record
  record_transaction transaction_id created_at t store = elim store.audit_key [
    | none ↦ (store, err audit_chain_missing)
    | some key ↦ elim (insert_row (new_row key store.rows transaction_id created_at t) store.rows) [
      | none ↦ (store, err sqlite)
      | some rows ↦ (record store { rows = rows }, ok (new_record transaction_id t))
    ]
  ]

  unfoldable pub insert_preview :
      String
      → PreviewEnvelope
      → List (String × PreviewEnvelope)
      → Option (List (String × PreviewEnvelope))
  insert_preview id preview previews = elim (preview? id previews) [
    | some _ ↦ none
    | none ↦ some ((id, preview) ∷ previews)
  ]

  -- One SQL transaction: both rows, or neither.
  unfoldable pub record_previewed :
      String
      → String
      → NewTransaction
      → PreviewEnvelope
      → TransactionStore
      → TransactionStore × Result (TransactionRecord × PreviewEnvelope)
  unfolding new_record insert_preview
  record_previewed transaction_id created_at t preview store = elim store.audit_key [
    | none ↦ (store, err audit_chain_missing)
    | some key ↦ elim (insert_row (new_row key store.rows transaction_id created_at t) store.rows) [
      | none ↦ (store, err sqlite)
      | some rows ↦ elim (insert_preview transaction_id preview store.previews) [
        | none ↦ (store, err sqlite)
        | some previews ↦ (
          record store { rows = rows; previews = previews },
          ok (new_record transaction_id t, preview),
        )
      ]
    ]
  ]

-- The SELECT of the status and then the UPDATE, which has no test of it, with no call of another between
-- the two.
unfoldable pub update_status :
    String → JobState → TransactionStore → TransactionStore × Result (Unit {0})
update_status transaction_id new_status store = elim (by_id transaction_id store.rows) [
  | none ↦ (store, err (not_found transaction_id))
  | some row ↦
      if allowed_transition row.status new_status
      then (
        record store {
          rows =
              (update_where (λ r. str_eq r.transaction_id transaction_id) new_status store.rows).0;
        },
        ok tt,
      )
      else (store, err (invalid_transition row.status new_status))
]

-- Whether the transaction was claimed.
unfoldable pub claim_for_execution : String → TransactionStore → TransactionStore × Bool
claim_for_execution transaction_id store =
    let (rows, affected) =
      update_where (λ r. str_eq r.transaction_id transaction_id && same_state r.status queued)
        running store.rows in
    (record store { rows = rows }, ltb 0 affected)

-- `limit` is `datetime('now', '-15 minutes')`. The result is the number of rows affected.
unfoldable pub cleanup_stale_queued : String → TransactionStore → TransactionStore × ℕ
cleanup_stale_queued limit store =
    let (rows, affected) =
      update_where (λ r. same_state r.status queued && not (later r.created_at limit)) canceled
        store.rows in
    (record store { rows = rows }, affected)

unfoldable pub get_preview : String → TransactionStore → Option PreviewEnvelope
get_preview transaction_id store = preview? transaction_id store.previews

-- `list_transactions` validates the status filter: it is the text of a state, or an error. (A filter
-- with a JSON escape in it, which the code would read, is an error here.)
unfoldable pub parse_status : String → Option JobState
parse_status s =
    if str_eq s "queued"
    then some queued
    else if str_eq s "running"
    then some running
    else if str_eq s "succeeded"
    then some succeeded
    else if str_eq s "failed"
    then some failed
    else if str_eq s "canceled"
    then some canceled
    else if str_eq s "rolled_back"
    then some rolled_back
    else if str_eq s "needs_reboot"
    then some needs_reboot
    else none

-- A filter that is not set lets every row pass.
abbrev if_set : {A : Type 0} → Option A → (A → Bool) → Bool
if_set none p = true
if_set (some a) p = p a

-- `serde_json::from_str` of the stored warnings.
module _ (warnings_of_json : String → Option (List String)) where
  unfoldable pub row_to_record : Row → Result TransactionRecord
  row_to_record row = elim (warnings_of_json row.warnings_json) [
    | none ↦ err json
    | some warnings ↦ ok (record {
      transaction_id = row.transaction_id;
      request_id = row.request_id;
      request_hash = row.request_hash;
      action_name = row.action_name;
      risk_level = row.risk_level;
      status = row.status;
      approval_id = row.approval_id;
      summary = row.summary;
      warnings = warnings;
    })
  ]

  unfoldable pub optional_record : Option Row → Result (Option TransactionRecord)
  optional_record none = ok none
  optional_record (some row) = elim (row_to_record row) [ ok t ↦ ok (some t) | err e ↦ err e ]

  unfoldable pub get : String → TransactionStore → Result (Option TransactionRecord)
  unfolding optional_record row_to_record
  get transaction_id store = optional_record (by_id transaction_id store.rows)

  -- `limit` is `datetime('now', '-15 minutes')`.
  unfoldable pub find_by_request_hash :
      String → String → TransactionStore → Result (Option TransactionRecord)
  unfolding optional_record row_to_record
  find_by_request_hash request_hash limit store = optional_record (
      latest (
        where_rows
          (λ r.
            str_eq r.request_hash request_hash
            && (same_state r.status queued && later r.created_at limit))
          store.rows))

  collect : List Row → Result (List TransactionRecord)
  collect [] = ok []
  collect (r ∷ rows) = elim (row_to_record r) [
    | err e ↦ err e
    | ok t ↦ elim (collect rows) [ err e ↦ err e | ok ts ↦ ok (t ∷ ts) ]
  ]

  -- `since` is `datetime('now', '-n hours')`, where the filter is set.
  unfoldable pub list_transactions :
      ℕ
      → Option String
      → Option String
      → Option String
      → TransactionStore
      → Result (List TransactionRecord)
  unfolding collect
  list_transactions limit status_filter action_filter since store =
      let select = λ (status : Option JobState). collect (
        take (min limit 100) (
          order_desc (
            where_rows
              (λ r.
                if_set status (same_state r.status)
                && (if_set action_filter (str_eq r.action_name)
                    && if_set since (later r.created_at)))
              store.rows))) in
      elim status_filter [
        | none ↦ select none
        | some s ↦ elim (parse_status s) [ none ↦ err json | some st ↦ select (some st) ]
      ]

unfoldable pub fetch_chain_rows : TransactionStore → List ChainRow
fetch_chain_rows store = map chain_row (order_asc store.rows)

unfoldable pub fetch_chain_row : String → TransactionStore → Option ChainRow
fetch_chain_row transaction_id store = elim (by_id transaction_id store.rows) [
  | none ↦ none
  | some row ↦ some (chain_row row)
]

unfoldable pub verify_audit_chain :
    (List ℕ → List ℕ → String) → AuditKey → TransactionStore → VerifyOutcome
verify_audit_chain hmac_hex key store = verify_chain hmac_hex key (fetch_chain_rows store)
