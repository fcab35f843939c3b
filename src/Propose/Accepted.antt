-- ===== src/Propose/Accepted.antt =====
-- The plans that `parse_proposed_plan` returns.
use lacs.Prelude.{
  ℕ, suc, String, ◌≡◌, ◌≢◌, refl, sym, ◌∙◌, true, false, Bool-cases, inl, inr, List, [], All,
  str_eq, contains, false≢true, subst,
}
use lacs.Json.{Value, Items, nil, cons, get}
use lacs.Types.Actions.{ActionName, known_action_names}
use lacs.Plan.{
  PlanRiskLevel, PlanStep, Plan, new_step, new, Planned, done, fail, ◌>>=◌, ok_or, of_validation,
  is_empty,
}
use lacs.Propose.{
  Texts, nonempty, text_at, array_at, parse_action, parse_risk, parse_params, parse_step,
  parse_steps, parse_some, parse_proposed_plan,
}

-- What holds of a result, if there is one.
abbrev Holds : {A : Type 0} → (A → Type 0) → Planned A → Type 0
Holds P (done a) = P a
Holds P (fail e) = Unit

record Ensures {A : Type 0} (P : A → Type 0) (m : Planned A) : Type 0 where
  holds : Holds P m

module _ {A B : Type 0} (Q : B → Type 0) where
  Ensures-bind :
      (P : A → Type 0) (m : Planned A) (f : A → Planned B)
      → Ensures P m
      → ((a : A) → P a → Ensures Q (f a))
      → Ensures Q (m >>= f)
  Ensures-bind P (done a) f h k = k a h.holds
  Ensures-bind P (fail e) f h k = record { holds = _ }

  Ensures-any :
      (m : Planned A) (f : A → Planned B) → ((a : A) → Ensures Q (f a)) → Ensures Q (m >>= f)
  Ensures-any (done a) f k = k a
  Ensures-any (fail e) f k = record { holds = _ }

-- A step whose action is of the catalogue, with a summary.
pub record IsStep (s : PlanStep) : Type 0 where
  pub known : contains known_action_names s.action_name.as_str ≡ true
  pub summary : s.summary ≢ ""

pub record IsPlan (intent : String) (p : Plan) : Type 0 where
  pub same_intent : p.intent ≡ intent
  pub intended : intent ≢ ""
  pub summary : p.summary ≢ ""
  pub explanation : p.explanation ≢ ""
  pub steps : p.steps ≢ []
  pub each : All IsStep p.steps

pub not_empty : (s : String) → str_eq s "" ≡ false → s ≢ ""
not_empty s h e = false≢true (sym h ∙ rw e refl)

parse_action-known :
    (i : ℕ) (name : String)
    → Ensures
        (λ (a : ActionName). contains known_action_names a.as_str ≡ true)
        (parse_action i name)
unfolding parse_action
parse_action-known i name = elim (Bool-cases (contains known_action_names name)) [
  | inl known ↦ rw (parse_action, known) (record { holds = known })
  | inr other ↦ rw (parse_action, other) (record { holds = _ })
]

new_step-IsStep :
    (a : ActionName) (summary : String) (r : PlanRiskLevel) (params : Value)
    → contains known_action_names a.as_str ≡ true
    → Ensures IsStep (of_validation (new_step a summary r params))
unfolding new_step of_validation
new_step-IsStep a summary r params known = elim (Bool-cases (str_eq summary "")) [
  | inl empty ↦ rw empty (record { holds = _ })
  | inr filled ↦
      rw filled (record { holds = record { known = known; summary = not_empty summary filled } })
]

new-IsPlan :
    (intent summary explanation : String) (steps : List PlanStep)
    → All IsStep steps
    → Ensures (IsPlan intent) (of_validation (new intent summary explanation steps))
unfolding new of_validation
new-IsPlan intent summary explanation steps each = elim (Bool-cases (str_eq intent "")) [
  | inl blank ↦ rw blank (record { holds = _ })
  | inr i ↦ elim (Bool-cases (str_eq summary "")) [
    | inl blank ↦ rw (i, blank) (record { holds = _ })
    | inr s ↦ elim (Bool-cases (str_eq explanation "")) [
      | inl blank ↦ rw (i, s, blank) (record { holds = _ })
      | inr e ↦ elim (Bool-cases (is_empty steps)) [
        | inl blank ↦ rw (i, s, e, blank) (record { holds = _ })
        | inr some_step ↦
            rw (i, s, e, some_step)
              (record {
                holds = record {
                  same_intent = refl;
                  intended = not_empty intent i;
                  summary = not_empty summary s;
                  explanation = not_empty explanation e;
                  steps = λ nil_steps. false≢true (sym some_step ∙ rw nil_steps refl);
                  each = each;
                };
              })
      ]
    ]
  ]
]

module _ (std : Texts) where
  parse_step-IsStep : (i : ℕ) (v : Value) → Ensures IsStep (parse_step std i v)
  unfolding parse_step
  parse_step-IsStep i v =
      Ensures-any IsStep (ok_or (nonempty (text_at v "action_name")) _) _ (λ name.
        Ensures-bind IsStep _ (parse_action i name) _ (parse_action-known i name) (λ a known.
          Ensures-any IsStep (ok_or (nonempty (text_at v "summary")) _) _ (λ summary.
            Ensures-any IsStep (ok_or (text_at v "risk_level") _) _ (λ risk_str.
              Ensures-any IsStep (parse_risk i risk_str) _ (λ risk_level.
                Ensures-any IsStep (parse_params std i (get v "params")) _
                  (λ params. new_step-IsStep a summary risk_level params known))))))

  parse_steps-IsStep : (i : ℕ) (vs : Items) → Ensures (All IsStep) (parse_steps std i vs)
  unfolding parse_steps
  parse_steps-IsStep i nil = record { holds = _ }
  parse_steps-IsStep i (cons v vs) =
      Ensures-bind (All IsStep) IsStep (parse_step std i v) _ (parse_step-IsStep i v) (λ s good.
        Ensures-bind (All IsStep) (All IsStep) (parse_steps std (suc i) vs) _
          (parse_steps-IsStep (suc i) vs) (λ steps rest. record { holds = (good, rest) }))

  parse_some-IsStep : (vs : Items) → Ensures (All IsStep) (parse_some std vs)
  unfolding parse_some
  parse_some-IsStep nil = record { holds = _ }
  parse_some-IsStep (cons v vs) = parse_steps-IsStep 0 (cons v vs)

  parse_proposed_plan-Ensures :
      (intent : String) (input : Value)
      → Ensures (IsPlan intent) (parse_proposed_plan std intent input)
  unfolding parse_proposed_plan
  parse_proposed_plan-Ensures intent input =
      Ensures-any (IsPlan intent) (ok_or (nonempty (text_at input "summary")) _) _ (λ summary.
        Ensures-any (IsPlan intent) (ok_or (nonempty (text_at input "explanation")) _) _
          (λ explanation. Ensures-any (IsPlan intent) (ok_or (array_at input "steps") _) _ (λ vs.
            Ensures-bind (IsPlan intent) (All IsStep) (parse_some std vs) _ (parse_some-IsStep vs)
              (λ steps each. new-IsPlan intent summary explanation steps each))))

  -- A plan that is taken from the model has the intent it was asked for, which is not empty, a summary,
  -- an explanation and at least one step, and each step has a summary and an action of the catalogue.
  pub parse_proposed_plan-IsPlan :
      (intent : String) (input : Value) (p : Plan)
      → parse_proposed_plan std intent input ≡ done p
      → IsPlan intent p
  parse_proposed_plan-IsPlan intent input p h =
      (subst (Ensures (IsPlan intent)) {x = parse_proposed_plan std intent input} {y = done p} h
        (parse_proposed_plan-Ensures intent input)).holds
