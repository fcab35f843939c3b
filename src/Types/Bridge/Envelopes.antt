-- ===== src/Types/Bridge/Envelopes.antt =====
-- crates/sysknife-types/src/lib.rs: `From` and `TryFrom` between the records and their messages.
-- An absent text is sent as the empty one, and the empty one is read as absent.
use lacs.Prelude.{
  Bool-cases, inl, inr, ◌⊎◌, ap, String, ◌≡◌, refl, Option, none, some, str_eq, eq_iff, arith,
  if◌then◌else◌,
}
use lacs.Json.{Value}
use lacs.Types.{RequestEnvelope, PreviewEnvelope, ResultEnvelope, TransactionRecord}
use lacs.Types.Bridge.Codes.{
  Result, ok, err, ◌>>=◌, invalid_json, caller_role_code, risk_level_code, job_state_code,
  caller_role_of_i32, risk_level_of_i32, job_state_of_i32, caller_role_of_i32-code,
  risk_level_of_i32-code, job_state_of_i32-code, code-risk_level_of_i32, code-job_state_of_i32,
}
use lacs.Types.Bridge.Proto

-- `unwrap_or_default`
unfoldable pub or_empty : Option String → String
or_empty none = ""
or_empty (some s) = s

-- `if value.is_empty() { None } else { Some(value) }`
unfoldable pub non_empty : String → Option String
non_empty s = if str_eq s "" then none else some s

pub or_empty-non_empty : (s : String) → or_empty (non_empty s) ≡ s
unfolding non_empty or_empty
or_empty-non_empty s = ground (arith, eq_iff s "")

unfoldable pub transaction_to_proto : TransactionRecord → Proto.TransactionRecord
transaction_to_proto value = record {
  transaction_id = value.transaction_id;
  request_id = value.request_id;
  request_hash = value.request_hash;
  action_name = value.action_name;
  risk_level = risk_level_code value.risk_level;
  status = job_state_code value.status;
  approval_id = or_empty value.approval_id;
  summary = value.summary;
  warnings = value.warnings;
}

unfoldable pub transaction_of_proto : Proto.TransactionRecord → Result TransactionRecord
transaction_of_proto value = do
  risk ← risk_level_of_i32 value.risk_level
  status ← job_state_of_i32 value.status
  ok (record {
    transaction_id = value.transaction_id;
    request_id = value.request_id;
    request_hash = value.request_hash;
    action_name = value.action_name;
    risk_level = risk;
    status = status;
    approval_id = non_empty value.approval_id;
    summary = value.summary;
    warnings = value.warnings;
  })

-- What `back` is of an optional text: the text itself, or nothing where it was the empty one.
abbrev pub Kept : Option String → Option String → Type 0
Kept sent back = (back ≡ sent) ⊎ ((sent ≡ some "") × (back ≡ none))

Kept-non_empty : (o : Option String) → Kept o (non_empty (or_empty o))
unfolding non_empty or_empty
Kept-non_empty none = inl refl
Kept-non_empty (some s) = elim (Bool-cases (str_eq s "")) [
  | inl empty ↦ rw empty (inr (ap some ((eq_iff s "").0 empty), refl))
  | inr full ↦ rw full (inl refl)
]

-- A record as it is read from a message: the one that was sent, but for the approval id.
pub data ReadBack (t : TransactionRecord) : Result TransactionRecord → Type 0 where
  read_back :
      (id : Option String) → Kept t.approval_id id → ReadBack t (ok (record t { approval_id = id }))

-- A record that is sent and read back is the record; only an approval id that was the empty text
-- comes back absent.
pub transaction_of_proto-transaction_to_proto :
    (t : TransactionRecord) → ReadBack t (transaction_of_proto (transaction_to_proto t))
unfolding transaction_of_proto transaction_to_proto
transaction_of_proto-transaction_to_proto t =
    rw (risk_level_of_i32-code t.risk_level, job_state_of_i32-code t.status)
      (read_back (non_empty (or_empty t.approval_id)) (Kept-non_empty t.approval_id))

-- A message that is accepted is sent again as it came: nothing in it is lost.
pub transaction_to_proto-transaction_of_proto :
    (m : Proto.TransactionRecord) (t : TransactionRecord)
    → transaction_of_proto m ≡ ok t
    → transaction_to_proto t ≡ m
unfolding transaction_of_proto transaction_to_proto
transaction_to_proto-transaction_of_proto m t h = ground (
  arith,
  code-risk_level_of_i32 m.risk_level t.risk_level,
  code-job_state_of_i32 m.status t.status,
  or_empty-non_empty m.approval_id,
)

unfoldable pub result_to_proto : ResultEnvelope → Proto.ResultEnvelope
result_to_proto value = record {
  status = job_state_code value.status;
  summary = value.summary;
  warnings = value.warnings;
  job_id = or_empty value.job_id;
  needs_reboot = value.needs_reboot;
  rollback_ref = or_empty value.rollback_ref;
  transaction_id = value.transaction_id;
}

unfoldable pub result_of_proto : Proto.ResultEnvelope → Result ResultEnvelope
result_of_proto value = do
  status ← job_state_of_i32 value.status
  ok (record {
    status = status;
    summary = value.summary;
    warnings = value.warnings;
    job_id = non_empty value.job_id;
    needs_reboot = value.needs_reboot;
    rollback_ref = non_empty value.rollback_ref;
    transaction_id = value.transaction_id;
  })

-- An accepted result message is sent again as it came.
pub result_to_proto-result_of_proto :
    (m : Proto.ResultEnvelope) (t : ResultEnvelope)
    → result_of_proto m ≡ ok t
    → result_to_proto t ≡ m
unfolding result_of_proto result_to_proto
result_to_proto-result_of_proto m t h = ground (
  arith,
  code-job_state_of_i32 m.status t.status,
  or_empty-non_empty m.job_id,
  or_empty-non_empty m.rollback_ref,
)

-- `serde_json::to_string` and `serde_json::from_str` on JSON values.
module _ (to_string : Value → String) (from_str : String → Option Value) where
  parse_json : String → String → Result Value
  parse_json field s = elim (from_str s) [ none ↦ err (invalid_json field) | some v ↦ ok v ]

  unfoldable pub request_to_proto : RequestEnvelope → Proto.RequestEnvelope
  request_to_proto value = record {
    action_name = value.action_name;
    request_id = value.request_id;
    params_json = to_string value.params;
    caller_role = caller_role_code value.caller_role;
    request_hash = value.request_hash.text;
  }

  unfoldable pub request_of_proto : Proto.RequestEnvelope → Result RequestEnvelope
  unfolding parse_json
  request_of_proto value = do
    params ← parse_json "params_json" value.params_json
    role ← caller_role_of_i32 value.caller_role
    ok (record {
      action_name = value.action_name;
      request_id = value.request_id;
      params = params;
      caller_role = role;
      request_hash = record { text = value.request_hash };
    })

  unfoldable pub preview_to_proto : PreviewEnvelope → Proto.PreviewEnvelope
  preview_to_proto value = record {
    summary = value.summary;
    risk_level = risk_level_code value.risk_level;
    current_state_json = to_string value.current_state;
    proposed_change_json = to_string value.proposed_change;
    expected_side_effects = value.expected_side_effects;
    reboot_required = value.reboot_required;
    rollback_available = value.rollback_available;
    warnings = value.warnings;
    request_hash = value.request_hash.text;
  }

  unfoldable pub preview_of_proto : Proto.PreviewEnvelope → Result PreviewEnvelope
  unfolding parse_json
  preview_of_proto value = do
    current_state ← parse_json "current_state_json" value.current_state_json
    proposed_change ← parse_json "proposed_change_json" value.proposed_change_json
    risk ← risk_level_of_i32 value.risk_level
    ok (record {
      summary = value.summary;
      risk_level = risk;
      current_state = current_state;
      proposed_change = proposed_change;
      expected_side_effects = value.expected_side_effects;
      reboot_required = value.reboot_required;
      rollback_available = value.rollback_available;
      warnings = value.warnings;
      request_hash = record { text = value.request_hash };
    })

  -- Where the text of its parameters reads back as the value that was written, a request survives
  -- the wire.
  pub request_of_proto-request_to_proto :
      (e : RequestEnvelope)
      → from_str (to_string e.params) ≡ some e.params
      → request_of_proto (request_to_proto e) ≡ ok e
  unfolding request_of_proto request_to_proto
  request_of_proto-request_to_proto e reads_back =
      ground (arith, caller_role_of_i32-code e.caller_role)

  -- Where the texts of its two JSON fields read back as the values that were written, a preview
  -- survives the wire.
  pub preview_of_proto-preview_to_proto :
      (e : PreviewEnvelope)
      → from_str (to_string e.current_state) ≡ some e.current_state
      → from_str (to_string e.proposed_change) ≡ some e.proposed_change
      → preview_of_proto (preview_to_proto e) ≡ ok e
  unfolding preview_of_proto preview_to_proto
  preview_of_proto-preview_to_proto e state_back change_back =
      ground (arith, risk_level_of_i32-code e.risk_level)
