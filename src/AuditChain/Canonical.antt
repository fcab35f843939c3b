-- ===== src/AuditChain/Canonical.antt =====
-- What the canonical encoding of crates/sysknife-daemon/src/audit_chain.rs determines of a content.
use lacs.Prelude.{ℕ, eq_iff, ◌≡◌, sym, ◌∙◌, List, ◌++◌, arith}
use lacs.Prelude.Text.{as_bytes, as_bytes_injective}
use lacs.Types.{RiskLevel}
use lacs.AuditChain.{ChainContent, canonical_bytes, to_string, risk_level_str, or_empty}
use lacs.AuditChain.Escape.{field, push_field-append, field_cancel}
use lacs.AuditChain.Decimal.{to_string_injective}

pub record SameContent (c d : ChainContent) : Type 0 where
  pub seq : c.seq ≡ d.seq
  pub key_id : c.key_id ≡ d.key_id
  pub transaction_id : c.transaction_id ≡ d.transaction_id
  pub request_id : c.request_id ≡ d.request_id
  pub request_hash : c.request_hash ≡ d.request_hash
  pub action_name : c.action_name ≡ d.action_name
  pub risk_level : c.risk_level ≡ d.risk_level
  pub summary : c.summary ≡ d.summary
  pub approval_id : or_empty c.approval_id ≡ or_empty d.approval_id
  pub warnings_json : c.warnings_json ≡ d.warnings_json
  pub created_at : c.created_at ≡ d.created_at

risk_level_str_injective : (a b : RiskLevel) → risk_level_str a ≡ risk_level_str b → a ≡ b
unfolding risk_level_str
risk_level_str_injective a b h = ground (
  arith,
  eq_iff "low" "medium",
  eq_iff "low" "high",
  eq_iff "medium" "low",
  eq_iff "medium" "high",
  eq_iff "high" "low",
  eq_iff "high" "medium",
)

canonical-fields :
    (c : ChainContent) (rest : List ℕ)
    → canonical_bytes c ++ rest
      ≡ field "seq" (to_string c.seq) (
          field "key_id" (as_bytes c.key_id) (
            field "transaction_id" (as_bytes c.transaction_id) (
              field "request_id" (as_bytes c.request_id) (
                field "request_hash" (as_bytes c.request_hash) (
                  field "action_name" (as_bytes c.action_name) (
                    field "risk_level" (as_bytes (risk_level_str c.risk_level)) (
                      field "summary" (as_bytes c.summary) (
                        field "approval_id" (as_bytes (or_empty c.approval_id)) (
                          field "warnings_json"
                            (as_bytes c.warnings_json)
                            (field "created_at" (as_bytes c.created_at) rest))))))))))
unfolding canonical_bytes
canonical-fields c rest = simp push_field-append

-- Two encodings that agree, each with anything behind it, are of one content, but for an approval id
-- that is absent in one and empty in the other, and what is behind them agrees too.
pub canonical_bytes_cancel :
    (c d : ChainContent) (x y : List ℕ)
    → canonical_bytes c ++ x ≡ canonical_bytes d ++ y
    → SameContent c d × (x ≡ y)
canonical_bytes_cancel c d x y h =
    let e0 = sym (canonical-fields c x) ∙ h ∙ canonical-fields d y in
    let (f0, e1) = field_cancel "seq" _ _ _ _ e0 in
    let (f1, e2) = field_cancel "key_id" _ _ _ _ e1 in
    let (f2, e3) = field_cancel "transaction_id" _ _ _ _ e2 in
    let (f3, e4) = field_cancel "request_id" _ _ _ _ e3 in
    let (f4, e5) = field_cancel "request_hash" _ _ _ _ e4 in
    let (f5, e6) = field_cancel "action_name" _ _ _ _ e5 in
    let (f6, e7) = field_cancel "risk_level" _ _ _ _ e6 in
    let (f7, e8) = field_cancel "summary" _ _ _ _ e7 in
    let (f8, e9) = field_cancel "approval_id" _ _ _ _ e8 in
    let (f9, e10) = field_cancel "warnings_json" _ _ _ _ e9 in
    let (f10, e11) = field_cancel "created_at" _ _ _ _ e10 in
    (
      record {
        seq = to_string_injective c.seq d.seq f0;
        key_id = as_bytes_injective _ _ f1;
        transaction_id = as_bytes_injective _ _ f2;
        request_id = as_bytes_injective _ _ f3;
        request_hash = as_bytes_injective _ _ f4;
        action_name = as_bytes_injective _ _ f5;
        risk_level = risk_level_str_injective c.risk_level d.risk_level (as_bytes_injective _ _ f6);
        summary = as_bytes_injective _ _ f7;
        approval_id = as_bytes_injective _ _ f8;
        warnings_json = as_bytes_injective _ _ f9;
        created_at = as_bytes_injective _ _ f10;
      },
      e11,
    )
