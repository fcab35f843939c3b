-- ===== src/Examples/Store.antt =====
-- A store with transactions, in place of SQLite and HMAC two functions on texts.
use lacs.Prelude.{
  ℕ, String, ◌≡◌, refl, true, false, ◌&&◌, Option, some, List, [], ◌∷◌, length, All, str_eq, arith,
}
use lacs.Prelude.Text.{as_bytes}
use lacs.Types.{medium, queued, succeeded, same_state, TransactionRecord}
use lacs.AuditChain.{AuditKey, current_key_id, intact}
use lacs.Table.{Row, by_id, latest, where_rows}
use lacs.Transactions.{
  NewTransaction, Database, TransactionStore, ok, err, open_with_key, claim_for_execution,
  cleanup_stale_queued, find_by_request_hash, optional_record, verify_audit_chain, update_status,
  invalid_transition,
}
use lacs.Transactions.Chain.{
  Op, record_op, status_op, claim_op, apply_all, verify_audit_chain-apply_all,
}
use lacs.Transactions.Claims.{claimed_once}
use lacs.Transactions.Expiry.{SameDate, no_expiry_within_date}
use lacs.Transactions.Lifecycle.{Moves, apply-Moves}
use lacs.Transactions.Chain.{apply}
use lacs.Transactions.Order.{Ascending}

-- in place of HMAC-SHA256
abbrev pub toy_hex : List ℕ → List ℕ → String
toy_hex key [] = "e"
toy_hex key (_ ∷ []) = "o"
toy_hex key (_ ∷ _ ∷ message) = toy_hex key message

abbrev pub no_json : List String → String
no_json _ = "[]"

abbrev pub no_warnings : String → Option (List String)
no_warnings _ = some []

abbrev install : NewTransaction
install = record {
  request_id = "r1";
  request_hash = "h1";
  action_name = "AptInstall";
  risk_level = medium;
  approval_id = some "h1";
  summary = "install htop";
  warnings = [];
}

abbrev pub key : AuditKey
key = record { key_id = current_key_id; key_bytes = 1 ∷ 2 ∷ [] }

abbrev pub row : Row
row = record {
  transaction_id = "t1";
  request_id = "r1";
  request_hash = "h1";
  action_name = "AptInstall";
  risk_level = medium;
  status = queued;
  approval_id = some "h1";
  summary = "install htop";
  warnings_json = "[]";
  created_at = "2026-01-02T03:04:05.000Z";
  seq = 1;
  key_id = "v1";
  chain_hash = "e";
  prev_chain_hash = "";
}

abbrev pub one_row : TransactionStore
one_row = record { audit_key = some key; rows = row ∷ []; previews = [] }

pub one_row-claimed : (claim_for_execution "t1" one_row).1 ≡ true
unfolding claim_for_execution same_state lacs.Table.update_where
one_row-claimed = refl

abbrev calls : List Op
calls = record_op "t2" "2026-01-02T03:05:00.000Z" install ∷ status_op "t1" succeeded ∷ []

claimed_once_example :
    let after = apply_all toy_hex no_json calls (claim_for_execution "t1" one_row).0 in
    ((claim_for_execution "t1" after).1 ≡ false)
    × ((warnings_of_json : String → Option (List String)) (hash limit : String)
          (t : TransactionRecord)
        → ¬ (
            (find_by_request_hash warnings_of_json hash limit after ≡ ok (some t))
            × (t.transaction_id ≡ "t1")))
claimed_once_example = claimed_once toy_hex no_json "t1" one_row calls one_row-claimed

-- a database with one transaction, of an earlier run
abbrev db : Database
db = record { transactions = some (row ∷ []); transaction_previews = some [] }

db-Ascending : Ascending 0 (open_with_key key db).rows
unfolding open_with_key
db-Ascending = (omega arith, tt)

db_verified : verify_audit_chain toy_hex key (open_with_key key db) ≡ intact 1
unfolding verify_audit_chain open_with_key lacs.AuditChain.verify_chain
    lacs.Transactions.fetch_chain_rows lacs.Table.order_asc lacs.Table.insert_asc
    lacs.Table.chain_row lacs.AuditChain.chain_hash lacs.AuditChain.canonical_bytes
    lacs.AuditChain.push_field as_bytes lacs.AuditChain.escape lacs.AuditChain.to_string
    lacs.AuditChain.decimal lacs.AuditChain.content lacs.AuditChain.risk_level_str
    lacs.AuditChain.or_empty
db_verified = refl

verify_audit_chain-apply_all_example :
    verify_audit_chain toy_hex key (apply_all toy_hex no_json calls (open_with_key key db))
    ≡ intact (length (apply_all toy_hex no_json calls (open_with_key key db)).rows)
verify_audit_chain-apply_all_example =
    verify_audit_chain-apply_all toy_hex no_json key db 1 calls refl db-Ascending db_verified

pub one_row-there : by_id "t1" one_row.rows ≡ some row
unfolding by_id
one_row-there = refl

apply-Moves_example : Moves "t1" row (apply toy_hex no_json (claim_op "t1") one_row).rows
apply-Moves_example = apply-Moves toy_hex no_json (claim_op "t1") "t1" one_row row one_row-there

-- sixteen hours later, on the same day
abbrev limit : String
limit = "2026-01-02 19:04:05"

same_date : All (λ r. SameDate r.created_at limit) one_row.rows
same_date = (
  record {
    date = as_bytes "2026-01-02";
    time = as_bytes "03:04:05.000Z";
    limit_time = as_bytes "19:04:05";
    created_text = unfold as_bytes in refl;
    limit_text = unfold as_bytes in refl;
  },
  tt,
)

no_expiry_within_date_example :
    (cleanup_stale_queued limit one_row ≡ (one_row, 0))
    × (find_by_request_hash no_warnings "h1" limit one_row
        ≡ optional_record no_warnings (
            latest (
              where_rows
                (λ r. str_eq r.request_hash "h1" && same_state r.status queued)
                one_row.rows)))
no_expiry_within_date_example = no_expiry_within_date no_warnings "h1" limit one_row same_date

-- a queued transaction may not be marked as done
skips_running :
    update_status "t1" succeeded one_row ≡ (one_row, err (invalid_transition queued succeeded))
unfolding update_status by_id
skips_running = unfold lacs.Jobs.allowed_transition in refl
