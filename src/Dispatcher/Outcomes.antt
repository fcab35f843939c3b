-- ===== src/Dispatcher/Outcomes.antt =====
-- How the run of an action comes out, with the rollback that may follow it, in
-- crates/sysknife-daemon/src/dispatcher.rs.
use lacs.Prelude.{
  String, ◌≡◌, ◌⊎◌, inl, inr, zero, suc, refl, ap, subst, ◌∙◌, true, false, Option, none, some,
  List, [], ◌∷◌, ◌++◌, arith, Option-cases, Bool-cases, append_assoc,
}
use lacs.Types.{JobState, succeeded, failed, rolled_back, needs_reboot, same_state}
use lacs.Executor.{
  ℤ, pos, negsuc, ActionMechanism, command, file_scan, file_write, file_patch, file_delete,
  ActionSpec, Executor, ExecutionOutput, Outcome, ran_to_end, executor_error, is_success,
}
use lacs.Dispatcher.{
  World, Line, Summary, progress, note_run, run_action, run_mechanism, initial_result,
  rolled_back_summary, attempting_rollback, rollback_succeeded, rollback_failed,
  attempt_rollback_if_needed, rolled,
}
use lacs.Dispatcher.Keeps.{Keeps, Keeps-progress}

-- A command that ran to its end with the exit code 0.
abbrev pub Succeeded : Outcome → Type 0
Succeeded (ran_to_end out) = out.exit_code ≡ pos 0
Succeeded (executor_error e) = ⊥

is_success_cases :
    (out : ExecutionOutput)
    → ((out.exit_code ≡ pos 0) × (is_success out ≡ true))
      ⊎ ((¬ (out.exit_code ≡ pos 0)) × (is_success out ≡ false))
unfolding is_success
is_success_cases out = go out.exit_code refl
  where
    go :
        (z : ℤ)
        → out.exit_code ≡ z
        → ((out.exit_code ≡ pos 0) × (is_success out ≡ true))
          ⊎ ((¬ (out.exit_code ≡ pos 0)) × (is_success out ≡ false))
    go (pos zero) e = inl (e, rw e refl)
    go (pos (suc n)) e = inr (ground (arith, e), rw e refl)
    go (negsuc n) e = inr (ground (arith, e), rw e refl)

rolled_cases :
    (o : Outcome) → (Succeeded o × (rolled o ≡ true)) ⊎ ((¬ Succeeded o) × (rolled o ≡ false))
rolled_cases (ran_to_end out) = is_success_cases out
rolled_cases (executor_error e) = inr ((λ h. h), refl)

-- How the one run of an action came out: as that of its command, where it has one.
pub data Ran (x : Executor) (spec : ActionSpec) : Outcome → Type 0 where
  ran_command :
      (program : String) (args : List String)
      → spec.mechanism ≡ command program args
      → Ran x spec (x.run_command program args).1
  ran_spec :
      ((program : String) (args : List String) → ¬ (spec.mechanism ≡ command program args))
      → Ran x spec (x.execute_spec spec)

pub run_action-Ran :
    (x : Executor) (job : String) (spec : ActionSpec) (w : World)
    → Ran x spec (run_action x job spec w).1
unfolding run_action run_mechanism
run_action-Ran x job spec w = go spec.mechanism refl
  where
    go :
        (m : ActionMechanism)
        → spec.mechanism ≡ m
        → Ran x spec (run_mechanism x job spec m (note_run spec w)).1
    go (command program args) e = ran_command program args e
    go (file_scan p) e = ran_spec (λ program args h. ground (arith, e, h))
    go (file_write p c) e = ran_spec (λ program args h. ground (arith, e, h))
    go (file_patch p c d) e = ran_spec (λ program args h. ground (arith, e, h))
    go (file_delete p) e = ran_spec (λ program args h. ground (arith, e, h))

-- The status of an action that came out so, before a rollback.
pub data Initial (spec : ActionSpec) (o : Outcome) : JobState → Type 0 where
  good : Succeeded o → spec.reboot_required ≡ false → Initial spec o succeeded
  good_reboot : Succeeded o → spec.reboot_required ≡ true → Initial spec o needs_reboot
  bad : ¬ Succeeded o → Initial spec o failed

pub initial_result-Initial :
    (name : String) (spec : ActionSpec) (o : Outcome)
    → Initial spec o (initial_result name spec o).0
unfolding initial_result
initial_result-Initial name spec (executor_error e) = bad (λ h. h)
initial_result-Initial name spec (ran_to_end out) = elim (is_success_cases out) [
  | inr (h, unmet) ↦ rw (unmet, initial_result) (bad h)
  | inl (h, met) ↦ elim (Bool-cases spec.reboot_required) [
    | inl reboot ↦
        subst (Initial spec (ran_to_end out)) {x = needs_reboot} (rw (met, reboot) refl)
          (good_reboot h reboot)
    | inr plain ↦
        subst (Initial spec (ran_to_end out)) {x = succeeded} (rw (met, plain) refl) (good h plain)
  ]
]

-- What was run beyond the actions `before`, and the status that it leads to: of the action alone, or
-- of the action that failed and the rollback defined for its name.
pub data Settles (x : Executor) (name : String) (spec : ActionSpec) (before after : List ActionSpec)
    : JobState → Type 0 where
  success :
      (o : Outcome)
      → Ran x spec o
      → Succeeded o
      → spec.reboot_required ≡ false
      → after ≡ before ++ spec ∷ []
      → Settles x name spec before after succeeded
  success_reboot :
      (o : Outcome)
      → Ran x spec o
      → Succeeded o
      → spec.reboot_required ≡ true
      → after ≡ before ++ spec ∷ []
      → Settles x name spec before after needs_reboot
  failure :
      (o : Outcome)
      → Ran x spec o
      → ¬ Succeeded o
      → (spec.rollback_available ≡ false) ⊎ (x.rollback_spec_for name ≡ none)
      → after ≡ before ++ spec ∷ []
      → Settles x name spec before after failed
  failure_undone :
      (o : Outcome) (rb : ActionSpec)
      → Ran x spec o
      → ¬ Succeeded o
      → spec.rollback_available ≡ true
      → x.rollback_spec_for name ≡ some rb
      → Succeeded (x.execute rb)
      → after ≡ before ++ spec ∷ rb ∷ []
      → Settles x name spec before after rolled_back
  failure_kept :
      (o : Outcome) (rb : ActionSpec)
      → Ran x spec o
      → ¬ Succeeded o
      → spec.rollback_available ≡ true
      → x.rollback_spec_for name ≡ some rb
      → ¬ Succeeded (x.execute rb)
      → after ≡ before ++ spec ∷ rb ∷ []
      → Settles x name spec before after failed

Keeps-rollback :
    (job : String) (first last : Line) (rb : ActionSpec) (w : World)
    → Keeps (note_run rb w) (progress job last (note_run rb (progress job first w)))
Keeps-rollback job first last rb w =
    let k = Keeps-progress job first w in
    let l = Keeps-progress job last (note_run rb (progress job first w)) in
    record { store = l.store ∙ k.store; ran = l.ran ∙ ap (λ r. r ++ rb ∷ []) k.ran }

pub attempt_rollback-Settles :
    (x : Executor) (job name : String) (spec : ActionSpec) (o : Outcome) (s : JobState)
    (m : Summary) (w : World) (before : List ActionSpec)
    → Ran x spec o
    → Initial spec o s
    → w.ran ≡ before ++ spec ∷ []
    → ((attempt_rollback_if_needed x job name spec s m w).0.store ≡ w.store)
      × Settles x name spec before
          (attempt_rollback_if_needed x job name spec s m w).0.ran
          (attempt_rollback_if_needed x job name spec s m w).1.0
unfolding attempt_rollback_if_needed same_state
attempt_rollback-Settles x job name spec o _ m w before r (good h plain) e =
    (refl, success o r h plain e)
attempt_rollback-Settles x job name spec o _ m w before r (good_reboot h reboot) e =
    (refl, success_reboot o r h reboot e)
attempt_rollback-Settles x job name spec o _ m w before r (bad h) e =
    let result : World × (JobState × Summary × Option String) → Type 0 =
      λ q. (q.0.store ≡ w.store) × Settles x name spec before q.0.ran q.1.0 in
    elim (Bool-cases spec.rollback_available) [
      | inr unset ↦
          subst result {x = (w, (failed, m, none))}
            {y = attempt_rollback_if_needed x job name spec failed m w} (rw unset refl)
            (refl, failure o r h (inl unset) e)
      | inl there_is ↦ elim (Option-cases (x.rollback_spec_for name)) [
        | inl undefined ↦
            subst result {x = (w, (failed, m, none))}
              {y = attempt_rollback_if_needed x job name spec failed m w}
              (rw (there_is, undefined) refl) (refl, failure o r h (inr undefined) e)
        | inr (rb, found) ↦
            let first = note_run rb (progress job (attempting_rollback name) w) in
            let twice = ap (λ l. l ++ rb ∷ []) e ∙ append_assoc before (spec ∷ []) (rb ∷ []) in
            elim (rolled_cases (x.execute rb)) [
              | inl (undone, met) ↦
                  let k = Keeps-rollback job (attempting_rollback name) rollback_succeeded rb w in
                  subst result
                    {x = (
                      progress job rollback_succeeded first,
                      (rolled_back, rolled_back_summary name, some "rpm-ostree rollback"),
                    )}
                    {y = attempt_rollback_if_needed x job name spec failed m w}
                    (rw (there_is, found, met) refl)
                    (k.store, failure_undone o rb r h there_is found undone (k.ran ∙ twice))
              | inr (kept, unmet) ↦
                  let k =
                    Keeps-rollback job (attempting_rollback name) (rollback_failed (x.execute rb))
                      rb w in
                  subst result
                    {x = (progress job (rollback_failed (x.execute rb)) first, (failed, m, none))}
                    {y = attempt_rollback_if_needed x job name spec failed m w}
                    (rw (there_is, found, unmet) refl)
                    (k.store, failure_kept o rb r h there_is found kept (k.ran ∙ twice))
            ]
      ]
    ]
