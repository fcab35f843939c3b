-- ===== src/Planner/Tools.antt =====
-- What a tool call leads to.
use lacs.Prelude.{
  ℕ, ◌≡◌, refl, ◌∙◌, String, Bool, true, false, inl, inr, Option, none, some, List, [], ◌∷◌, ◌++◌,
  Option-cases, ◌⊎◌, if◌then◌else◌,
}
use lacs.Prelude.Text.{codes}
use lacs.Plan.{PlanningError, Planned, done, fail}
use lacs.Propose.{parse_proposed_plan}
use lacs.Propose.Accepted.{IsPlan, parse_proposed_plan-IsPlan}
use lacs.Prefs.{contains_sensitive, append_pref, remove_pref}
use lacs.Sanitize.{sanitize_tool_output}
use lacs.QueryTools.{query_tool_to_action}
use lacs.QueryTools
use lacs.Prefs
use lacs.Json.{Value}
use lacs.Planner.{
  Env, Session, Call, Reply, replied, planned, failed, panicked, Round, results, ended, crashed,
  sanitized, read_system_state, propose_plan, remember, forget, query_current_user, query_tool,
  run_tool, run_tools, prepend, after_call, ToolResultBlock, saved, removed, daemon_answer,
}

Planned-cases :
    {A : Type 0} (m : Planned A) → ((a : A) × (m ≡ done a)) ⊎ ((e : PlanningError) × (m ≡ fail e))
Planned-cases (done a) = inl (a, refl)
Planned-cases (fail e) = inr (e, refl)

Query-cases :
    (q : QueryTools.Query)
    → ((msg : String) × (q ≡ QueryTools.err msg))
      ⊎ ((o : Option (String × Value)) × (q ≡ QueryTools.ok o))
Query-cases (QueryTools.err msg) = inl (msg, refl)
Query-cases (QueryTools.ok o) = inr (o, refl)

-- A tool call makes no call of the provider, and ends planning with a plan only if that was accepted.
abbrev Good : String → Reply → Type 0
Good intent (planned p) = IsPlan intent p
Good intent _ = Unit

record Fair (intent : String) (w : Session) (r : Reply × Session) : Type 0 where
  good : Good intent r.0
  pub calls : r.1.calls ≡ w.calls

module _ (env : Env) (intent : String) (c : Call) (w : Session) where
  Good-sanitized : (raw : List ℕ) (is_error : Bool) → Good intent (sanitized env c raw is_error)
  unfolding sanitized
  Good-sanitized raw is_error =
      elim (Option-cases (sanitize_tool_output env.nfc_normalise (codes c.name) raw)) [
        | inl e ↦ rw (sanitized, e) _
        | inr (out, e) ↦ rw (sanitized, e) _
      ]

  Fair-read_system_state : Fair intent w (read_system_state env c w)
  unfolding read_system_state
  Fair-read_system_state = elim (Planned-cases (env.curated_state w.asked)) [
    | inl (s, e) ↦
        rw (read_system_state, e) (record { good = Good-sanitized s false; calls = refl })
    | inr (err, e) ↦ rw (read_system_state, e) (record { good = _; calls = refl })
  ]

  Fair-propose_plan : Fair intent w (propose_plan env intent c w)
  unfolding propose_plan
  Fair-propose_plan = elim (Planned-cases (parse_proposed_plan env.texts intent c.input)) [
    | inl (p, e) ↦
        rw (propose_plan, e)
          (record { good = parse_proposed_plan-IsPlan env.texts intent c.input p e; calls = refl })
    | inr (err, e) ↦ rw (propose_plan, e) (record { good = _; calls = refl })
  ]

  Fair-query_current_user : Fair intent w (query_current_user env c w)
  unfolding query_current_user
  Fair-query_current_user = elim (Planned-cases (env.current_user w.asked)) [
    | inl (u, e) ↦
        rw (query_current_user, e)
          (record { good = Good-sanitized (codes "Current user: " ++ codes u) false; calls = refl })
    | inr (err, e) ↦
        rw (query_current_user, e)
          (record {
            good =
                Good-sanitized
                  (codes "Error: cannot determine current user: " ++ codes (env.display err)) true;
            calls = refl;
          })
  ]

  Fair-if :
      (b : Bool) (x y : Reply × Session)
      → Fair intent w x
      → Fair intent w y
      → Fair intent w (if b then x else y)
  Fair-if true x y h k = h
  Fair-if false x y h k = k

  Good-saved : (fact : List ℕ) (r : Prefs.Result) → Good intent (saved env c fact r)
  unfolding saved
  Good-saved fact Prefs.ok = _
  Good-saved fact (Prefs.err msg) = _
  Good-saved fact Prefs.io_error = _

  Good-removed : (fact : List ℕ) (r : Option Bool) → Good intent (removed env c fact r)
  unfolding removed
  Good-removed fact (some true) = _
  Good-removed fact (some false) = _
  Good-removed fact none = _

  Good-daemon_answer : (r : Planned String) → Good intent (daemon_answer env c r)
  unfolding daemon_answer
  Good-daemon_answer (done output) = Good-sanitized (codes output) false
  Good-daemon_answer (fail e) =
      Good-sanitized (codes "Query failed: " ++ codes (env.display e)) true

  Fair-replied : (b : ToolResultBlock) → Fair intent w (replied b, w)
  Fair-replied b = record { good = _; calls = refl }

  Fair-saved :
      (fact : List ℕ) (r : Prefs.Result) (after : Option (List ℕ))
      → Fair intent w (saved env c fact r, record w { prefs = after })
  Fair-saved fact r after = record { good = Good-saved fact r; calls = refl }

  Fair-removed :
      (fact : List ℕ) (r : Option Bool) (after : Option (List ℕ))
      → Fair intent w (removed env c fact r, record w { prefs = after })
  Fair-removed fact r after = record { good = Good-removed fact r; calls = refl }

  Fair-remember : Fair intent w (remember env c w)
  unfolding remember
  Fair-remember = search (Fair-if, Fair-replied, Fair-saved) depth 20

  Fair-forget : Fair intent w (forget env c w)
  unfolding forget
  Fair-forget = search (Fair-if, Fair-replied, Fair-removed) depth 20

  Fair-query_tool : Fair intent w (query_tool env c w)
  unfolding query_tool
  Fair-query_tool = elim (Query-cases (query_tool_to_action c.name c.input)) [
    | inl (msg, e) ↦ rw (query_tool, e) (record { good = _; calls = refl })
    | inr (none, e) ↦ rw (query_tool, e) (record { good = _; calls = refl })
    | inr (some (action_name, params), e) ↦
        rw (query_tool, e)
          (record {
            good = Good-daemon_answer (env.query_action w.asked action_name params);
            calls = refl;
          })
  ]

  Fair-run_tool : Fair intent w (run_tool env intent c w)
  unfolding run_tool
  Fair-run_tool =
      search
        (
          Fair-if, Fair-read_system_state, Fair-propose_plan, Fair-remember, Fair-forget,
          Fair-query_current_user, Fair-query_tool,
        )
        depth 20

-- The same of all tool calls of one answer.
abbrev pub GoodRound : String → Round → Type 0
GoodRound intent (ended (done p)) = IsPlan intent p
GoodRound intent _ = Unit

GoodRound-prepend :
    (intent : String) (b : ToolResultBlock) (r : Round)
    → GoodRound intent r
    → GoodRound intent (prepend b r)
unfolding prepend
GoodRound-prepend intent b (results rs) h = _
GoodRound-prepend intent b (ended p) h = h
GoodRound-prepend intent b crashed h = _

pub record FairRound (intent : String) (w : Session) (r : Round × Session) : Type 0 where
  pub good : GoodRound intent r.0
  pub calls : r.1.calls ≡ w.calls

FairRound-after_call :
    (intent : String) (w : Session) (r : Reply × Session) (rest : Session → Round × Session)
    → Fair intent w r
    → ((v : Session) → FairRound intent v (rest v))
    → FairRound intent w (after_call r rest)
unfolding after_call
FairRound-after_call intent w (replied b, v) rest h k = record {
  good = GoodRound-prepend intent b (rest v).0 (k v).good;
  calls = (k v).calls ∙ h.calls;
}
FairRound-after_call intent w (planned p, v) rest h k = record { good = h.good; calls = h.calls }
FairRound-after_call intent w (failed e, v) rest h k = record { good = _; calls = h.calls }
FairRound-after_call intent w (panicked, v) rest h k = record { good = _; calls = h.calls }

pub FairRound-run_tools :
    (env : Env) (intent : String) (cs : List Call) (w : Session)
    → FairRound intent w (run_tools env intent cs w)
unfolding run_tools
FairRound-run_tools env intent [] w = record { good = _; calls = refl }
FairRound-run_tools env intent (c ∷ cs) w =
    FairRound-after_call intent w (run_tool env intent c w) (run_tools env intent cs)
      (Fair-run_tool env intent c w) (FairRound-run_tools env intent cs)
