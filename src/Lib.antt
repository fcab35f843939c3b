-- ===== src/Lib.antt =====
-- SysKnife: a daemon that runs administrative actions for callers of several roles, after a
-- preview that a human approves, and that keeps a tamper-evident log of what it was asked to do.
--
-- A request names an action of the catalogue. The daemon gets the caller's role from its groups or
-- its token, asks the policy whether the role may call the action, records a preview with the hash
-- of the request in the store, and runs the action only for an approval of that hash, by claiming
-- the recorded transaction. The store's rows form a chain of keyed hashes, which an auditor verifies.
-- On the client's side the planner returns a plan of steps, and the command line decides which steps
-- may run without a prompt.
--
-- - Types models crates/sysknife-types/src/lib.rs: enumerations and envelopes; Types/Actions the
--   catalogue KNOWN_ACTION_NAMES and ActionName::parse; Types/Bridge the conversions to the messages
--   of crates/sysknife-proto/proto/sysknife/v1/sysknife.proto (a `From` is `…_to_proto`, a `TryFrom`
--   is `…_of_proto`). The two functions of serde_json are arguments there. Json has its values.
-- - Jobs models crates/sysknife-daemon/src/jobs.rs; Jobs/Lifecycle has its diagram as a type of edges.
-- - Auth models crates/sysknife-daemon/src/auth.rs. The token file is its text or absent, and the
--   environment variable SYSKNIFE_TOKEN_ROLE is an argument; one that is not set reads as empty.
-- - Policy models crates/sysknife-daemon/src/policy.rs: the arms of min_role_for_action are lists in
--   Policy/Allowlist; the methods of PolicyTable are named `table_…` or as in the code.
-- - AuditChain models crates/sysknife-daemon/src/audit_chain.rs: canonical bytes, the chain and its
--   verification; AuditChain/Key the key file, for 32 given random
--   bytes, without the creation of its folder and the flag create_new. HMAC-SHA256 in hex is the argument `hmac_hex`: nothing
--   is assumed of it, and where a statement needs it, a collision is a case of the result. The decimal
--   digits of a sequence number are computed on fuel, one round for each unit of the number and one
--   more, which is enough since a round divides it by ten.
-- - Table models the SQL that crates/sysknife-daemon/src/transactions.rs runs on its table, rows in
--   the order of insertion; Transactions the methods of TransactionStore, each a function from the
--   store to the store and its result. The ids (uuid), the time of an insertion and the limits that
--   SQLite computes are arguments. A database file has its two tables or not; opening it creates
--   those that are absent. Calls of the methods are taken one after another, each as a whole: so the
--   SELECT and the UPDATE of update_status, which the code runs as two statements outside a
--   transaction, are one step here.
-- - Plan models the plan of crates/sysknife-brain/src/planner.rs, Approval the decisions of
--   apps/sysknife-cli/src/approval.rs.
-- - Executor models what crates/sysknife-daemon/src/actions/mod.rs and executor.rs tell the dispatcher of
--   an action, the errors of building one, and the executor as a record of functions. Build models
--   build_action_spec of executor.rs: its arms, in child modules, are lists of names and functions of
--   the parameters, in the order of the source; the first arm with the name is taken. Params models
--   how executor.rs reads parameters; of the standard library, IpAddr::from_str and str::to_lowercase
--   are arguments (the record Std). Validate models crates/sysknife-daemon/src/actions/validate.rs, and
--   Actions the constructors in the other files of that folder, with
--   Actions/Quoted on the quotes of a script. A u32 is printed with fuel for ten
--   digits, which it does not exceed. Build/Sound has a rule for each way an arm is written, and goes
--   through the arms.
-- - Preview models crates/sysknife-daemon/src/preview.rs: the profile that a preview shows.
-- - Dispatcher models handle_execute of crates/sysknife-daemon/src/dispatcher.rs, from its checks to the
--   last frame. The World there is the store, the actions that were run, the frames that were sent, and
--   the number of frames that the peer still takes. The hash of a request is an argument.
--   Dispatcher/Previews has handle_preview and handle_describe, with the snapshot of the host as an
--   argument, Dispatcher/Redaction the redaction of credentials, Dispatcher/Ready an execution after
--   its preview.
-- - Framing models crates/sysknife-daemon/src/transport/framing.rs over the bytes of a stream.
-- - Limiter models crates/sysknife-brain/src/rate_limit.rs over the text of its file; Sanitize models
--   sanitize.rs and Prefs prefs.rs of the same folder. There a text is the list of its code points,
--   `str::to_lowercase` and the normal form NFC of the crate unicode-normalization are arguments, and a
--   panic of strip_ansi is `none`; Sanitize/Bytes has that function on bytes.
-- - QueryTools and Propose model crates/sysknife-brain/src/planning_tools/query_tools.rs and
--   propose_plan.rs, Planner the loop of plan_intent in crates/sysknife-brain/src/planner.rs with the
--   messages of provider.rs: its Session is the file of preferences, the log of rejected plans and the
--   numbers of calls; the record Env has the provider and the state client as functions of the number
--   of calls before, so their answers may be any. The loop recurses on the number of turns that are
--   left. The answer of the rate limiter is an argument of plan_intent.
-- - Prelude has the names that all files share: tests, lists, and texts with their UTF-8 bytes.
-- - Examples runs the definitions and applies the theorems to concrete inputs.
--
-- A number of type u64 is a natural number here: it is only compared, printed and counted up by one
-- per row. Errors of the file system, of a busy database and of a poisoned lock are not modelled, nor
-- are the rest of the dispatcher, the running of processes, actions/layering_ubuntu.rs, which nothing
-- calls, the PostgreSQL store, the prompt and the providers of the planner, and the user interfaces.
pub mod Prelude
pub mod Json
pub mod Types
pub mod Jobs
pub mod Auth
pub mod Policy
pub mod AuditChain
pub mod Table
pub mod Transactions
pub mod Plan
pub mod Approval
pub mod Executor
pub mod Validate
pub mod Params
pub mod Actions
pub mod Build
pub mod Preview
pub mod Dispatcher
pub mod Framing
pub mod Limiter
pub mod Sanitize
pub mod Prefs
pub mod QueryTools
pub mod Propose
pub mod Planner
pub mod Examples
