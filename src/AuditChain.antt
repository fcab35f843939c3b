-- ===== src/AuditChain.antt =====
-- crates/sysknife-daemon/src/audit_chain.rs: the canonical encoding of a row, the forward hash chain
-- and its verification. `AuditChain/Canonical` is about the encoding, `AuditChain/Verify` and
-- `AuditChain/Tamper` about chains, and `AuditChain/Key` has the key file. HMAC-SHA256 with its hex
-- encoding is a parameter.
pub mod Escape
pub mod Decimal
pub mod Canonical
pub mod Verify
pub mod Tamper
pub mod Key
use Prim.Native.String.{◌++◌ as append}
use lacs.Prelude.{
  ℕ, zero, suc, String, ◌+◌, ◌/◌, ◌%◌, Bool, true, false, Option, none, some, List, [], ◌∷◌, ◌++◌,
  ltb, ◌==◌, str_eq, not, if◌then◌else◌,
}
use lacs.Prelude.Text.{as_bytes}
use lacs.Types.{RiskLevel, low, medium, high}

abbrev pub current_key_id : String
current_key_id = "v1"

pub record AuditKey : Type 0 where
  pub key_id : String
  pub key_bytes : List ℕ

pub record ChainContent : Type 0 where
  pub seq : ℕ
  pub key_id : String
  pub transaction_id : String
  pub request_id : String
  pub request_hash : String
  pub action_name : String
  pub risk_level : RiskLevel
  pub summary : String
  pub approval_id : Option String
  pub warnings_json : String
  pub created_at : String

-- `u64::to_string`: the decimal digits of `n`, in front of `acc`. A round of fuel gives a digit.
unfoldable pub decimal : ℕ → ℕ → List ℕ → List ℕ
decimal zero n acc = acc
decimal (suc fuel) n acc =
    let rest = decimal fuel (n / 10) ((48 + n % 10) ∷ acc) in
    if ltb n 10 then (48 + n) ∷ acc else rest

unfoldable pub to_string : ℕ → List ℕ
to_string n = decimal (suc n) n []

-- The `match` on a byte in `push_field`, and its loop.
unfoldable pub escape_byte : ℕ → List ℕ
escape_byte b =
    if b == b'\\'
    then b'\\' ∷ b'\\' ∷ []
    else if b == 0x00
    then b'\\' ∷ b'0' ∷ []
    else if b == 0x1e
    then b'\\' ∷ b'1' ∷ b'E' ∷ []
    else if b == 0x1f
    then b'\\' ∷ b'1' ∷ b'F' ∷ []
    else b ∷ []

unfoldable pub escape : List ℕ → List ℕ
unfolding escape_byte
escape [] = []
escape (b ∷ bs) = escape_byte b ++ escape bs

unfoldable pub push_field : List ℕ → String → List ℕ → List ℕ
push_field buf tag value = buf ++ (as_bytes tag ++ (0x1e ∷ (escape value ++ (0x1f ∷ []))))

unfoldable pub risk_level_str : RiskLevel → String
risk_level_str low = "low"
risk_level_str medium = "medium"
risk_level_str high = "high"

-- `unwrap_or("")`
unfoldable pub or_empty : Option String → String
or_empty none = ""
or_empty (some s) = s

unfoldable pub canonical_bytes : ChainContent → List ℕ
canonical_bytes c =
    let b1 = push_field [] "seq" (to_string c.seq) in
    let b2 = push_field b1 "key_id" (as_bytes c.key_id) in
    let b3 = push_field b2 "transaction_id" (as_bytes c.transaction_id) in
    let b4 = push_field b3 "request_id" (as_bytes c.request_id) in
    let b5 = push_field b4 "request_hash" (as_bytes c.request_hash) in
    let b6 = push_field b5 "action_name" (as_bytes c.action_name) in
    let b7 = push_field b6 "risk_level" (as_bytes (risk_level_str c.risk_level)) in
    let b8 = push_field b7 "summary" (as_bytes c.summary) in
    let b9 = push_field b8 "approval_id" (as_bytes (or_empty c.approval_id)) in
    let b10 = push_field b9 "warnings_json" (as_bytes c.warnings_json) in
    push_field b10 "created_at" (as_bytes c.created_at)

pub data VerifyOutcome : Type 0 where
  intact : ℕ → VerifyOutcome
  -- rows checked, first broken seq, first broken transaction id, expected, actual
  broken : ℕ → ℕ → String → String → String → VerifyOutcome
  -- the three values that the reason prints: the row's seq and key id, and the loaded key id
  cannot_verify : ℕ → String → String → VerifyOutcome

unfoldable pub outcome_to_exit_code : VerifyOutcome → ℕ
outcome_to_exit_code (intact _) = 0
outcome_to_exit_code (broken _ _ _ _ _) = 1
outcome_to_exit_code (cannot_verify _ _ _) = 2

pub record ChainRow : Type 0 where
  pub seq : ℕ
  pub key_id : String
  pub transaction_id : String
  pub request_id : String
  pub request_hash : String
  pub action_name : String
  pub risk_level : RiskLevel
  pub summary : String
  pub approval_id : Option String
  pub warnings_json : String
  pub created_at : String
  pub prev_chain_hash : String
  pub chain_hash : String

-- The `ChainContent` that `verify_chain` builds from a row.
unfoldable pub content : ChainRow → ChainContent
content row = record {
  seq = row.seq;
  key_id = row.key_id;
  transaction_id = row.transaction_id;
  request_id = row.request_id;
  request_hash = row.request_hash;
  action_name = row.action_name;
  risk_level = row.risk_level;
  summary = row.summary;
  approval_id = row.approval_id;
  warnings_json = row.warnings_json;
  created_at = row.created_at;
}

-- `hmac_hex key message` is the hex text of HMAC-SHA256.
module _ (hmac_hex : List ℕ → List ℕ → String) where
  -- the method `AuditKey::chain_hash`
  unfoldable pub chain_hash : AuditKey → ChainContent → String → String
  chain_hash key c prev_chain_hash =
      hmac_hex key.key_bytes (canonical_bytes c ++ as_bytes prev_chain_hash)

  -- the loop of `verify_chain`, with its two variables
  unfoldable pub verify_from : AuditKey → String → ℕ → List ChainRow → VerifyOutcome
  verify_from key last_hash rows_checked [] = intact rows_checked
  verify_from key last_hash rows_checked (row ∷ rows) =
      let expected = chain_hash key (content row) row.prev_chain_hash in
      let rest = verify_from key row.chain_hash (rows_checked + 1) rows in
      if not (str_eq row.key_id key.key_id)
      then cannot_verify row.seq row.key_id key.key_id
      else if not (str_eq row.prev_chain_hash last_hash)
      then broken rows_checked row.seq row.transaction_id (append "prev_chain_hash=" last_hash)
          (append "prev_chain_hash=" row.prev_chain_hash)
      else if not (str_eq expected row.chain_hash)
      then broken rows_checked row.seq row.transaction_id expected row.chain_hash
      else rest

  unfoldable pub verify_chain : AuditKey → List ChainRow → VerifyOutcome
  unfolding verify_from
  verify_chain key rows = verify_from key "" 0 rows
