-- ===== src/Planner.antt =====
-- crates/sysknife-brain/src/planner.rs: the loop that asks the model for a plan, with the tools that
-- it may call. The provider, the daemon behind the state client, the clock and the environment are
-- parameters; the messages of the model and the texts for it are as in provider.rs. The events for a
-- progress display, the prompt and what is printed are not modelled. `Planner/Tools`
-- is about one answer of the model, `Planner/Turns` about the loop and `Planner/Gate` about what is
-- tested before it.
pub mod Tools
pub mod Turns
pub mod Gate
use Prim.Native.Char.{code}
use lacs.Prelude.{
  ℕ, zero, suc, ◌+◌, String, Bool, true, false, Option, none, some, List, [], ◌∷◌, ◌++◌, length,
  map, ◌&&◌, ltb, str_eq, if◌then◌else◌,
}
use lacs.Prelude.Text.{codes, as_bytes, is_whitespace}
use lacs.Json.{Value, get, as_str}
use lacs.Plan.{
  Plan, PlanningError, empty_intent, intent_too_long, intent_contains_sensitive_data,
  rate_limit_exceeded, planner_stuck, no_plan_proposed, provider, Planned, done, fail,
}
use lacs.Limiter
use lacs.Prefs.{append_pref, remove_pref, contains_sensitive}
use lacs.Prefs
use lacs.Sanitize.{sanitize_tool_output}
use lacs.QueryTools.{query_tool_to_action}
use lacs.QueryTools
use lacs.Validate.{is_empty}
use lacs.Propose.{Texts, parse_proposed_plan}

abbrev pub intent_max_bytes : ℕ
intent_max_bytes = 2048

pub record ToolResultBlock : Type 0 where
  pub tool_use_id : String
  pub call_id : Option String
  pub content : List ℕ
  pub is_error : Bool

pub data ContentBlock : Type 0 where
  text : String → ContentBlock
  tool_use : String → Option String → String → Value → ContentBlock
  tool_result : ToolResultBlock → ContentBlock

pub data Role : Type 0 where
  user : Role
  assistant : Role

pub record Message : Type 0 where
  pub role : Role
  pub content : List ContentBlock

pub data StopReason : Type 0 where
  end_turn : StopReason
  tool_use_stop : StopReason
  max_tokens : StopReason

pub record Completion : Type 0 where
  pub content : List ContentBlock
  pub stop_reason : StopReason

abbrev pub user_text : String → Message
user_text s = record { role = user; content = text s ∷ [] }

abbrev pub tool_results : List ToolResultBlock → Message
tool_results results = record { role = user; content = map tool_result results }

-- What planning touches: the file of preferences, the rejected plans that were logged, the calls of
-- the provider and those of the state client.
pub record Session : Type 0 where
  pub prefs : Option (List ℕ)
  pub audit : List (String × String)
  pub calls : ℕ
  pub asked : ℕ

-- Of the configuration: whether a file of preferences is set and can be written, whether rejections
-- are logged. The others are the provider, given the number of its calls before and the messages; the
-- state client, given the number of its calls before, with the state as JSON; `Display` of an error and of a value; the texts
-- of the standard library and of the crate for normal forms.
pub record Env : Type 0 where
  pub max_turns : ℕ
  pub prefs_set : Bool
  pub persists : Bool
  pub audit_set : Bool
  pub complete : ℕ → List Message → Planned Completion
  pub curated_state : ℕ → Planned (List ℕ)
  pub query_action : ℕ → String → Value → Planned String
  pub current_user : ℕ → Planned String
  pub display : PlanningError → String
  pub io_message : String
  pub texts : Texts
  pub to_lowercase : List ℕ → List ℕ
  pub nfc_normalise : List ℕ → List ℕ

-- How a tool call ends: with a result for the model, or with the end of planning; `panicked` is a
-- panic of the sanitizer.
pub data Reply : Type 0 where
  replied : ToolResultBlock → Reply
  planned : Plan → Reply
  failed : PlanningError → Reply
  panicked : Reply

pub record Call : Type 0 where
  pub id : String
  pub call_id : Option String
  pub name : String
  pub input : Value

abbrev block : Call → List ℕ → Bool → Reply
block c content is_error =
    replied
      (record { tool_use_id = c.id; call_id = c.call_id; content = content; is_error = is_error })

-- `sanitize_tool_output(..).into_tool_result` and `into_error_tool_result`
unfoldable pub sanitized : Env → Call → List ℕ → Bool → Reply
unfolding sanitize_tool_output
sanitized env c raw is_error = elim (sanitize_tool_output env.nfc_normalise (codes c.name) raw) [
  | none ↦ panicked
  | some content ↦ block c content is_error
]

abbrev asked_once : Session → Session
asked_once w = record w { asked = suc w.asked }

unfoldable pub read_system_state : Env → Call → Session → Reply × Session
unfolding sanitized
read_system_state env c w = elim (env.curated_state w.asked) [
  | fail e ↦ (failed e, asked_once w)
  | done state_json ↦ (sanitized env c state_json false, asked_once w)
]

-- A plan that is refused is logged and answered with the reason.
unfoldable pub propose_plan : Env → String → Call → Session → Reply × Session
unfolding parse_proposed_plan
propose_plan env intent c w = elim (parse_proposed_plan env.texts intent c.input) [
  | done plan ↦ (planned plan, w)
  | fail e ↦ (
    block c
        (codes "Plan rejected: "
          ++ (codes (env.display e) ++ codes ". Correct the plan and call propose_plan again."))
        true,
    record w { audit = if env.audit_set then w.audit ++ (intent, env.display e) ∷ [] else w.audit },
  )
]

-- `get("fact").and_then(as_str).unwrap_or("")`
abbrev fact_of : Value → List ℕ
fact_of input = elim (get input "fact") [
  | none ↦ []
  | some v ↦ elim (as_str v) [ none ↦ [] | some s ↦ codes s ]
]

-- The answers after the file was written, or was not.
unfoldable pub saved : Env → Call → List ℕ → Prefs.Result → Reply
saved env c fact Prefs.ok = block c (codes "Preference saved: " ++ fact) false
saved env c fact (Prefs.err msg) = block c (codes "Error saving preference: " ++ codes msg) true
saved env c fact Prefs.io_error =
    block c (codes "Error saving preference: " ++ codes env.io_message) true

unfoldable pub removed : Env → Call → List ℕ → Option Bool → Reply
removed env c fact (some true) = block c (codes "Preference removed: " ++ fact) false
removed env c fact (some false) = block c (codes "Preference not found: " ++ fact) false
removed env c fact none = block c (codes "Error removing preference: " ++ codes env.io_message) true

unfoldable pub remember : Env → Call → Session → Reply × Session
unfolding contains_sensitive append_pref saved
remember env c w =
    let fact = fact_of c.input in
    if is_empty fact
    then (block c (codes "Error: 'fact' parameter must not be empty.") true, w)
    else if contains_sensitive env.to_lowercase fact
    then (
      block c
          (codes
            "Error: preference rejected — it appears to contain sensitive data (passwords, tokens, keys). Preferences must not store secrets.")
          true,
      w,
    )
    else if env.prefs_set
    then (let (r, after) = append_pref env.persists fact w.prefs in
        (saved env c fact r, record w { prefs = after }))
    else (block c (codes "Error: preference storage is not configured.") true, w)

unfoldable pub forget : Env → Call → Session → Reply × Session
unfolding remove_pref removed
forget env c w =
    let fact = fact_of c.input in
    if is_empty fact
    then (block c (codes "Error: 'fact' parameter must not be empty.") true, w)
    else if env.prefs_set
    then (let (r, after) = remove_pref env.persists fact w.prefs in
        (removed env c fact r, record w { prefs = after }))
    else (block c (codes "Error: preference storage is not configured.") true, w)

unfoldable pub query_current_user : Env → Call → Session → Reply × Session
unfolding sanitized
query_current_user env c w = elim (env.current_user w.asked) [
  | done u ↦ (sanitized env c (codes "Current user: " ++ codes u) false, asked_once w)
  | fail e ↦ (
    sanitized env c (codes "Error: cannot determine current user: " ++ codes (env.display e)) true,
    asked_once w,
  )
]

-- What the daemon answered.
unfoldable pub daemon_answer : Env → Call → Planned String → Reply
unfolding sanitized
daemon_answer env c (done output) = sanitized env c (codes output) false
daemon_answer env c (fail e) =
    sanitized env c (codes "Query failed: " ++ codes (env.display e)) true

unfoldable pub query_tool : Env → Call → Session → Reply × Session
unfolding daemon_answer query_tool_to_action
query_tool env c w = elim (query_tool_to_action c.name c.input) [
  | QueryTools.ok (some (action_name, params)) ↦
      (daemon_answer env c (env.query_action w.asked action_name params), asked_once w)
  | QueryTools.ok none ↦ (block c (codes "unknown tool: " ++ codes c.name) true, w)
  | QueryTools.err msg ↦ (block c (codes msg) true, w)
]

-- The `match` on the name of a tool.
unfoldable pub run_tool : Env → String → Call → Session → Reply × Session
unfolding read_system_state propose_plan remember forget query_current_user query_tool
run_tool env intent c w =
    if str_eq c.name "get_system_state"
    then read_system_state env c w
    else if str_eq c.name "propose_plan"
    then propose_plan env intent c w
    else if str_eq c.name "remember"
    then remember env c w
    else if str_eq c.name "forget"
    then forget env c w
    else if str_eq c.name "query_current_user"
    then query_current_user env c w
    else query_tool env c w

-- The tool calls of one answer, in order, up to one that ends planning. The results so far stand in
-- front of those of the calls that follow.
pub data Round : Type 0 where
  results : List ToolResultBlock → Round
  ended : Planned Plan → Round
  crashed : Round

unfoldable pub prepend : ToolResultBlock → Round → Round
prepend r (results rs) = results (r ∷ rs)
prepend r (ended p) = ended p
prepend r crashed = crashed

-- What follows a tool call: the next one, or the end.
unfoldable pub after_call : Reply × Session → (Session → Round × Session) → Round × Session
unfolding prepend
after_call (replied b, w) rest = let (round, after) = rest w in (prepend b round, after)
after_call (planned p, w) rest = (ended (done p), w)
after_call (failed e, w) rest = (ended (fail e), w)
after_call (panicked, w) rest = (crashed, w)

unfoldable pub run_tools : Env → String → List Call → Session → Round × Session
unfolding run_tool after_call
run_tools env intent [] w = (results [], w)
run_tools env intent (c ∷ cs) w = after_call (run_tool env intent c w) (run_tools env intent cs)

-- `filter_map` over the blocks of an answer
unfoldable pub tool_calls : List ContentBlock → List Call
tool_calls [] = []
tool_calls (tool_use id call_id name input ∷ bs) =
    record { id = id; call_id = call_id; name = name; input = input } ∷ tool_calls bs
tool_calls (b ∷ bs) = tool_calls bs

unfoldable pub has_text : List ContentBlock → Bool
has_text [] = false
has_text (text s ∷ bs) = true
has_text (b ∷ bs) = has_text bs

abbrev pub correction : String
correction =
    "You must call the `propose_plan` tool. Do not output JSON or text directly — your response must be a tool call to `propose_plan`."

-- How planning ends: with a result, or with a panic.
pub data Ending : Type 0 where
  finished : Planned Plan → Ending
  crash : Ending

-- What one answer of the model leads to: the messages of the next turn, or the end.
pub data Turn : Type 0 where
  continue : List Message → Turn
  stop : Ending → Turn

unfoldable pub after_tools : List Message → Round → Turn
after_tools messages (results rs) = continue (messages ++ tool_results rs ∷ [])
after_tools messages (ended p) = stop (finished p)
after_tools messages crashed = stop crash

unfoldable pub on_tool_calls : Env → String → List Message → List Call → Session → Turn × Session
unfolding run_tools after_tools
on_tool_calls env intent messages [] w = (stop (finished (fail no_plan_proposed)), w)
on_tool_calls env intent messages (c ∷ cs) w =
    let (round, w1) = run_tools env intent (c ∷ cs) w in (after_tools messages round, w1)

-- The `match` on the reason for which the model stopped, with the number of turns that are left.
unfoldable pub on_stop :
    Env → String → ℕ → List Message → List ContentBlock → StopReason → Session → Turn × Session
unfolding on_tool_calls tool_calls has_text
on_stop env intent left messages content max_tokens w = (stop (finished (fail no_plan_proposed)), w)
on_stop env intent left messages content end_turn w =
    if has_text content && ltb 0 left
    then (continue (messages ++ user_text correction ∷ []), w)
    else (stop (finished (fail no_plan_proposed)), w)
on_stop env intent left messages content tool_use_stop w =
    on_tool_calls env intent messages (tool_calls content) w

-- What follows a turn: the next one, or the end.
unfoldable pub after_turn :
    Turn × Session → (List Message → Session → Ending × Session) → Ending × Session
after_turn (continue messages, w) next = next messages w
after_turn (stop e, w) next = (e, w)

-- What the provider answered.
unfoldable pub on_answer :
    Env → String → ℕ → List Message → Planned Completion → Session → Turn × Session
unfolding on_stop
on_answer env intent left messages (fail e) w = (stop (finished (fail e)), w)
on_answer env intent left messages (done completion) w =
    on_stop env intent left
      (messages ++ record { role = assistant; content = completion.content } ∷ [])
      completion.content completion.stop_reason w

-- The loop, with the number of turns that are left.
unfoldable pub turns : Env → String → ℕ → List Message → Session → Ending × Session
unfolding on_answer after_turn
turns env intent zero messages w = (finished (fail planner_stuck), w)
turns env intent (suc left) messages w =
    after_turn
      (on_answer env intent left messages (env.complete w.calls messages)
        (record w { calls = suc w.calls }))
      (turns env intent left)

-- `str::trim`, on a text itself.
unfoldable pub trim_start : String → String
trim_start String.[] = ""
trim_start (String.◌∷◌ c s) =
    let rest = trim_start s in if is_whitespace (code c) then rest else String.◌∷◌ c s

unfoldable pub trim_end : String → String
trim_end String.[] = ""
trim_end (String.◌∷◌ c s) =
    let rest = trim_end s in
    if is_whitespace (code c) && str_eq rest "" then "" else String.◌∷◌ c rest

-- The rate limiter, if one is set, and the loop.
unfoldable pub limited : Env → Option Limiter.Result → String → Session → Ending × Session
unfolding turns
limited env (some (Limiter.err retry_after_secs)) intent w =
    (finished (fail (rate_limit_exceeded retry_after_secs)), w)
limited env (some Limiter.ok) intent w = turns env intent env.max_turns (user_text intent ∷ []) w
limited env none intent w = turns env intent env.max_turns (user_text intent ∷ []) w

-- The tests of the trimmed intent, and the loop. The answer of the rate limiter is given, if one is
-- set.
unfoldable pub plan_trimmed : Env → Option Limiter.Result → String → Session → Ending × Session
unfolding contains_sensitive limited
plan_trimmed env limiter intent w =
    if str_eq intent ""
    then (finished (fail empty_intent), w)
    else if ltb intent_max_bytes (length (as_bytes intent))
    then (finished (fail (intent_too_long (length (as_bytes intent)) intent_max_bytes)), w)
    else if contains_sensitive env.to_lowercase (codes intent)
    then (finished (fail intent_contains_sensitive_data), w)
    else limited env limiter intent w

unfoldable pub plan_intent : Env → Option Limiter.Result → String → Session → Ending × Session
unfolding plan_trimmed trim_start trim_end
plan_intent env limiter intent = plan_trimmed env limiter (trim_end (trim_start intent))
