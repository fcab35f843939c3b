-- ===== src/Planner/Turns.antt =====
-- What the planning loop returns, and how often it asks the provider.
use lacs.Prelude.{
  ℕ, zero, suc, ◌+◌, ◌≤◌, ◌≡◌, refl, String, Bool, true, false, ◌&&◌, Option, none, some, List, [],
  ◌∷◌, ◌++◌, arith, ltb, length, str_eq, if◌then◌else◌,
}
use lacs.Prelude.Text.{codes, as_bytes}
use lacs.Plan.{
  empty_intent, intent_contains_sensitive_data, rate_limit_exceeded, no_plan_proposed,
  PlanningError, Planned, done, fail,
}
use lacs.Propose.Accepted.{IsPlan}
use lacs.Prefs.{contains_sensitive}
use lacs.Limiter
use lacs.Planner.{
  Env, Session, Call, Round, results, ended, crashed, Ending, finished, Turn, continue, stop,
  Message, Completion, tool_calls, has_text, after_tools, after_turn, on_tool_calls, on_answer,
  on_stop, ContentBlock, StopReason, user_text, correction, plan_intent, trim_start, trim_end,
  turns, limited, intent_max_bytes, plan_trimmed, end_turn, tool_use_stop, max_tokens,
}
use lacs.Planner.Tools.{GoodRound, FairRound-run_tools}

-- An end with a plan that was accepted, or without one.
abbrev pub GoodEnding : String → Ending → Type 0
GoodEnding intent (finished (done p)) = IsPlan intent p
GoodEnding intent _ = Unit

abbrev GoodTurn : String → Turn → Type 0
GoodTurn intent (stop e) = GoodEnding intent e
GoodTurn intent _ = Unit

record FairTurn (intent : String) (w : Session) (t : Turn × Session) : Type 0 where
  good : GoodTurn intent t.0
  calls : t.1.calls ≡ w.calls

GoodTurn-after_tools :
    (intent : String) (messages : List Message) (r : Round)
    → GoodRound intent r
    → GoodTurn intent (after_tools messages r)
unfolding after_tools
GoodTurn-after_tools intent messages (results rs) h = _
GoodTurn-after_tools intent messages (ended (done p)) h = h
GoodTurn-after_tools intent messages (ended (fail e)) h = _
GoodTurn-after_tools intent messages crashed h = _

module _ (env : Env) (intent : String) where
  FairTurn-on_tool_calls :
      (messages : List Message) (cs : List Call) (w : Session)
      → FairTurn intent w (on_tool_calls env intent messages cs w)
  unfolding on_tool_calls
  FairTurn-on_tool_calls messages [] w = record { good = _; calls = refl }
  FairTurn-on_tool_calls messages (c ∷ cs) w =
      let fair = FairRound-run_tools env intent (c ∷ cs) w in
      record { good = GoodTurn-after_tools intent messages _ fair.good; calls = fair.calls }

  FairTurn-if :
      (b : Bool) (w : Session) (x y : Turn × Session)
      → FairTurn intent w x
      → FairTurn intent w y
      → FairTurn intent w (if b then x else y)
  FairTurn-if true w x y h k = h
  FairTurn-if false w x y h k = k

  FairTurn-on_stop :
      (left : ℕ) (messages : List Message) (blocks : List ContentBlock) (reason : StopReason)
      (w : Session)
      → FairTurn intent w (on_stop env intent left messages blocks reason w)
  unfolding on_stop
  FairTurn-on_stop left messages blocks max_tokens w = record { good = _; calls = refl }
  FairTurn-on_stop left messages blocks end_turn w =
      FairTurn-if (has_text blocks && ltb 0 left) w
        (continue (messages ++ user_text correction ∷ []), w)
        (stop (finished (fail no_plan_proposed)), w) (record { good = _; calls = refl })
        (record { good = _; calls = refl })
  FairTurn-on_stop left messages blocks tool_use_stop w =
      FairTurn-on_tool_calls messages (tool_calls blocks) w

  FairTurn-on_answer :
      (left : ℕ) (messages : List Message) (answer : Planned Completion) (w : Session)
      → FairTurn intent w (on_answer env intent left messages answer w)
  unfolding on_answer
  FairTurn-on_answer left messages (fail e) w = record { good = _; calls = refl }
  FairTurn-on_answer left messages (done completion) w =
      FairTurn-on_stop left _ completion.content completion.stop_reason w

  -- The end of the loop, and the calls of the provider.
  record FairEnding (left : ℕ) (w : Session) (e : Ending × Session) : Type 0 where
    good : GoodEnding intent e.0
    at_least : w.calls ≤ e.1.calls
    at_most : e.1.calls ≤ w.calls + left

  FairEnding-after_turn :
      (left : ℕ) (w v : Session) (t : Turn × Session)
      (next : List Message → Session → Ending × Session)
      → v.calls ≡ suc w.calls
      → FairTurn intent v t
      → ((messages : List Message) (u : Session) → FairEnding left u (next messages u))
      → FairEnding (suc left) w (after_turn t next)
  unfolding after_turn
  FairEnding-after_turn left w v (continue messages, u) next e h k =
      let rest = k messages u in
      record {
        good = rest.good;
        at_least = omega (arith, rest.at_least, h.calls, e);
        at_most = omega (arith, rest.at_most, h.calls, e);
      }
  FairEnding-after_turn left w v (stop ending, u) next e h k = record {
    good = h.good;
    at_least = omega (arith, h.calls, e);
    at_most = omega (arith, h.calls, e);
  }

  FairEnding-turns :
      (left : ℕ) (messages : List Message) (w : Session)
      → FairEnding left w (turns env intent left messages w)
  unfolding turns
  FairEnding-turns zero messages w = record {
    good = _;
    at_least = omega arith;
    at_most = omega arith;
  }
  FairEnding-turns (suc left) messages w =
      FairEnding-after_turn left w (record w { calls = suc w.calls })
        (on_answer env intent left messages (env.complete w.calls messages)
          (record w { calls = suc w.calls }))
        (turns env intent left) refl
        (FairTurn-on_answer left messages (env.complete w.calls messages)
          (record w { calls = suc w.calls }))
        (FairEnding-turns left)

FairEnding-if :
    (env : Env) (intent : String) (left : ℕ) (w : Session) (b : Bool) (x y : Ending × Session)
    → FairEnding env intent left w x
    → FairEnding env intent left w y
    → FairEnding env intent left w (if b then x else y)
FairEnding-if env intent left w true x y h k = h
FairEnding-if env intent left w false x y h k = k

FairEnding-refused :
    (env : Env) (intent : String) (left : ℕ) (w : Session) (e : PlanningError)
    → FairEnding env intent left w (finished (fail e), w)
FairEnding-refused env intent left w e = record {
  good = _;
  at_least = omega arith;
  at_most = omega arith;
}

FairEnding-limited :
    (env : Env) (limiter : Option Limiter.Result) (intent : String) (w : Session)
    → FairEnding env intent env.max_turns w (limited env limiter intent w)
unfolding limited
FairEnding-limited env (some (Limiter.err n)) intent w =
    FairEnding-refused env intent env.max_turns w (rate_limit_exceeded n)
FairEnding-limited env (some Limiter.ok) intent w =
    FairEnding-turns env intent env.max_turns (user_text intent ∷ []) w
FairEnding-limited env none intent w =
    FairEnding-turns env intent env.max_turns (user_text intent ∷ []) w

FairEnding-trimmed :
    (env : Env) (limiter : Option Limiter.Result) (intent : String) (w : Session)
    → FairEnding env intent env.max_turns w (plan_trimmed env limiter intent w)
unfolding plan_trimmed
FairEnding-trimmed env limiter intent w =
    FairEnding-if env intent _ w (str_eq intent "") _ _
      (FairEnding-refused env intent _ w empty_intent)
      (FairEnding-if env intent _ w (ltb intent_max_bytes (length (as_bytes intent))) _ _
        (FairEnding-refused env intent _ w _)
        (FairEnding-if env intent _ w (contains_sensitive env.to_lowercase (codes intent)) _ _
          (FairEnding-refused env intent _ w intent_contains_sensitive_data)
          (FairEnding-limited env limiter intent w)))

-- Planning ends after at most as many calls of the provider as there are turns, and if it ends with a
-- plan, that is one for the trimmed intent, with a summary, an explanation and at least one step, each
-- with a summary and an action of the catalogue.
pub plan_intent_bounds :
    (env : Env) (limiter : Option Limiter.Result) (intent : String) (w : Session)
    → ((plan_intent env limiter intent w).1.calls ≤ w.calls + env.max_turns)
      × GoodEnding (trim_end (trim_start intent)) (plan_intent env limiter intent w).0
unfolding plan_intent
plan_intent_bounds env limiter intent w =
    let fair = FairEnding-trimmed env limiter (trim_end (trim_start intent)) w in
    (fair.at_most, fair.good)
