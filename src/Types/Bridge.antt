-- ===== src/Types/Bridge.antt =====
-- crates/sysknife-types/src/lib.rs: the conversions between the domain types and the messages of
-- crates/sysknife-proto/proto/sysknife/v1. An `i32` on the wire is its 32-bit pattern, a number:
-- no negative code is valid. `serde_json::to_string` and `from_str` are parameters.
pub mod Codes
pub mod Proto
pub mod Envelopes
use lacs.Prelude.{ℕ}
