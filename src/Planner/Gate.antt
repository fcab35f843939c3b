-- ===== src/Planner/Gate.antt =====
-- What is tested before the provider is asked.
use lacs.Prelude.{
  ℕ, ◌≤◌, ◌≡◌, refl, String, false, Bool-cases, inl, inr, Option, none, some, arith, ltb, length,
  str_eq, ◌≢◌, ltb_false→le,
}
use lacs.Prelude.Text.{codes, as_bytes}
use lacs.Prefs.{contains_sensitive}
use lacs.Limiter
use lacs.Planner.{
  Env, Session, plan_intent, trim_start, trim_end, limited, intent_max_bytes, plan_trimmed,
}

-- What was passed before the provider is called.
pub record Passed (env : Env) (limiter : Option Limiter.Result) (intent : String) : Type 0 where
  pub filled : str_eq intent "" ≡ false
  pub short : length (as_bytes intent) ≤ intent_max_bytes
  pub harmless : contains_sensitive env.to_lowercase (codes intent) ≡ false
  pub in_limit : (n : ℕ) → limiter ≢ some (Limiter.err n)

limited-in_limit :
    (env : Env) (limiter : Option Limiter.Result) (intent : String) (w : Session) (n : ℕ)
    → (limited env limiter intent w).1.calls ≢ w.calls
    → limiter ≢ some (Limiter.err n)
unfolding limited
limited-in_limit env (some (Limiter.err m)) intent w n h e = h refl
limited-in_limit env (some Limiter.ok) intent w n h e = ground arith
limited-in_limit env none intent w n h e = ground arith

Passed-of_call :
    (env : Env) (limiter : Option Limiter.Result) (intent : String) (w : Session)
    → (plan_trimmed env limiter intent w).1.calls ≢ w.calls
    → Passed env limiter intent
unfolding plan_trimmed
Passed-of_call env limiter intent w h = elim (Bool-cases (str_eq intent "")) [
  | inl e ↦ absurd (h (rw (plan_trimmed, e) refl))
  | inr filled ↦ elim (Bool-cases (ltb intent_max_bytes (length (as_bytes intent)))) [
    | inl e ↦ absurd (h (rw (plan_trimmed, filled, e) refl))
    | inr short ↦ elim (Bool-cases (contains_sensitive env.to_lowercase (codes intent))) [
      | inl e ↦ absurd (h (rw (plan_trimmed, filled, short, e) refl))
      | inr harmless ↦ record {
        filled = filled;
        short = ltb_false→le intent_max_bytes (length (as_bytes intent)) short;
        harmless = harmless;
        in_limit = λ n.
            limited-in_limit env limiter intent w n
              (λ e. h (rw (plan_trimmed, filled, short, harmless) e));
      }
    ]
  ]
]

-- The provider is called only for an intent that, trimmed, is not empty, has at most 2048 bytes and
-- no sign of sensitive data, and when the rate limiter, if there is one, did not refuse.
pub plan_intent-Passed :
    (env : Env) (limiter : Option Limiter.Result) (intent : String) (w : Session)
    → (plan_intent env limiter intent w).1.calls ≢ w.calls
    → Passed env limiter (trim_end (trim_start intent))
unfolding plan_intent
plan_intent-Passed env limiter intent w h =
    Passed-of_call env limiter (trim_end (trim_start intent)) w h
