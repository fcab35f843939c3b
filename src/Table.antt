-- ===== src/Table.antt =====
-- crates/sysknife-daemon/src/transactions.rs: the table `transactions` and the SQL that is run on it.
-- Rows stand in the order of their insertion. A risk level and a status are stored as JSON texts
-- and read back; here the columns hold the values.
use lacs.Prelude.{
  ℕ, suc, String, Bool, true, false, ◌&&◌, Option, none, some, List, [], ◌∷◌, ◌++◌, ltb, leb,
  str_eq, if◌then◌else◌,
}
use lacs.Prelude.Text.{as_bytes, bytes_lt}
use lacs.Types.{RiskLevel, JobState}
use lacs.AuditChain.{ChainRow}

pub record Row : Type 0 where
  pub transaction_id : String
  pub request_id : String
  pub request_hash : String
  pub action_name : String
  pub risk_level : RiskLevel
  pub status : JobState
  pub approval_id : Option String
  pub summary : String
  pub warnings_json : String
  pub created_at : String
  pub seq : ℕ
  pub key_id : String
  pub chain_hash : String
  pub prev_chain_hash : String

-- The columns that `fetch_chain_rows` selects.
unfoldable pub chain_row : Row → ChainRow
chain_row r = record {
  seq = r.seq;
  key_id = r.key_id;
  transaction_id = r.transaction_id;
  request_id = r.request_id;
  request_hash = r.request_hash;
  action_name = r.action_name;
  risk_level = r.risk_level;
  summary = r.summary;
  approval_id = r.approval_id;
  warnings_json = r.warnings_json;
  created_at = r.created_at;
  prev_chain_hash = r.prev_chain_hash;
  chain_hash = r.chain_hash;
}

-- `a > b` on texts, as SQLite compares them: byte by byte.
unfoldable pub later : String → String → Bool
later a b = bytes_lt (as_bytes b) (as_bytes a)

-- `WHERE`
unfoldable pub where_rows : (Row → Bool) → List Row → List Row
where_rows p [] = []
where_rows p (r ∷ rows) = let rest = where_rows p rows in if p r then r ∷ rest else rest

-- `ORDER BY seq DESC LIMIT 1`
unfoldable pub latest : List Row → Option Row
latest [] = none
latest (r ∷ rows) = elim (latest rows) [
  | none ↦ some r
  | some m ↦ if ltb r.seq m.seq then some m else some r
]

-- `ORDER BY seq ASC` and `ORDER BY seq DESC`
unfoldable pub insert_asc : Row → List Row → List Row
insert_asc r [] = r ∷ []
insert_asc r (s ∷ rows) =
    let rest = insert_asc r rows in if leb r.seq s.seq then r ∷ s ∷ rows else s ∷ rest

unfoldable pub order_asc : List Row → List Row
order_asc [] = []
order_asc (r ∷ rows) = insert_asc r (order_asc rows)

unfoldable pub insert_desc : Row → List Row → List Row
insert_desc r [] = r ∷ []
insert_desc r (s ∷ rows) =
    let rest = insert_desc r rows in if leb s.seq r.seq then r ∷ s ∷ rows else s ∷ rest

unfoldable pub order_desc : List Row → List Row
order_desc [] = []
order_desc (r ∷ rows) = insert_desc r (order_desc rows)

-- `WHERE transaction_id = ?`; the column is the primary key.
unfoldable pub by_id : String → List Row → Option Row
by_id id [] = none
by_id id (r ∷ rows) =
    let rest = by_id id rows in if str_eq r.transaction_id id then some r else rest

-- `UPDATE transactions SET status = ? WHERE …`, with the number of rows that it changed.
unfoldable pub update_where : (Row → Bool) → JobState → List Row → List Row × ℕ
update_where p s [] = ([], 0)
update_where p s (r ∷ rows) =
    let (rest, n) = update_where p s rows in
    if p r then (record r { status = s } ∷ rest, suc n) else (r ∷ rest, n)

-- whether a row of this primary key, or of this unique `seq`, is there
unfoldable pub clashes : Row → List Row → Bool
clashes x [] = false
clashes x (r ∷ rows) =
    let rest = clashes x rows in
    if str_eq r.transaction_id x.transaction_id
    then true
    else if leb r.seq x.seq && leb x.seq r.seq
    then true
    else rest

-- `INSERT INTO transactions`: `none` if a constraint is violated.
unfoldable pub insert_row : Row → List Row → Option (List Row)
unfolding clashes
insert_row x rows = if clashes x rows then none else some (rows ++ x ∷ [])
