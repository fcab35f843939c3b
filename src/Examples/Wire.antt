-- ===== src/Examples/Wire.antt =====
-- Messages of the wire. In place of serde_json stand two functions that know one value.
use lacs.Prelude.{String, ◌≡◌, refl, true, false, Option, none, some, [], ◌∷◌}
use lacs.Json.{Value, null}
use lacs.Types.{
  RequestEnvelope, PreviewEnvelope, ResultEnvelope, TransactionRecord, low, medium, dev, running,
  succeeded, queued,
}
use lacs.Types.Bridge.Proto
use lacs.Types.Bridge.Codes.{Result, ok, err}
use lacs.Types.Bridge.Envelopes.{
  transaction_to_proto, transaction_of_proto, result_of_proto, non_empty,
  transaction_of_proto-transaction_to_proto, ReadBack,
}

abbrev to_string : Value → String
to_string _ = "null"

abbrev from_str : String → Option Value
from_str _ = some null

abbrev stored : TransactionRecord
stored = record {
  transaction_id = "t1";
  request_id = "r1";
  request_hash = "h1";
  action_name = "AptInstall";
  risk_level = medium;
  status = running;
  approval_id = some "";
  summary = "install htop";
  warnings = "reboot" ∷ [];
}

transaction_of_proto-transaction_to_proto_example :
    ReadBack stored (transaction_of_proto (transaction_to_proto stored))
transaction_of_proto-transaction_to_proto_example = transaction_of_proto-transaction_to_proto stored

abbrev message : Proto.TransactionRecord
message = record {
  transaction_id = "t1";
  request_id = "r1";
  request_hash = "h1";
  action_name = "AptInstall";
  risk_level = 2;
  status = 2;
  approval_id = "";
  summary = "install htop";
  warnings = "reboot" ∷ [];
}

message_accepted : transaction_of_proto message ≡ ok (record stored { approval_id = none })
unfolding transaction_of_proto non_empty lacs.Types.Bridge.Codes.risk_level_of_i32
    lacs.Types.Bridge.Codes.job_state_of_i32
message_accepted = refl

abbrev done : Proto.ResultEnvelope
done = record {
  status = 3;
  summary = "done";
  warnings = [];
  job_id = "";
  needs_reboot = false;
  rollback_ref = "ref";
  transaction_id = "t1";
}

abbrev outcome : ResultEnvelope
outcome = record {
  status = succeeded;
  summary = "done";
  warnings = [];
  job_id = none;
  needs_reboot = false;
  rollback_ref = some "ref";
  transaction_id = "t1";
}

done_accepted : result_of_proto done ≡ ok outcome
unfolding result_of_proto non_empty lacs.Types.Bridge.Codes.job_state_of_i32
done_accepted = refl

abbrev request : RequestEnvelope
request = record {
  action_name = "GetDateTime";
  request_id = "r1";
  params = null;
  caller_role = dev;
  request_hash = record { text = "h1" };
}

abbrev preview : PreviewEnvelope
preview = record {
  summary = "install htop";
  risk_level = medium;
  current_state = null;
  proposed_change = null;
  expected_side_effects = [];
  reboot_required = false;
  rollback_available = true;
  warnings = [];
  request_hash = record { text = "h1" };
}
