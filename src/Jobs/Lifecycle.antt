-- ===== src/Jobs/Lifecycle.antt =====
-- The lives that jobs.rs allows: which runs of `transition_to` succeed, and how they end.
use lacs.Prelude.{
  ◌⊎◌, ℕ, suc, ◌≤◌, ◌≡◌, refl, inl, inr, true, List, [], ◌∷◌, ◌+◌, arith, Bool-cases, String, ◌↔◌,
}
use lacs.Types.{JobState, queued, running, succeeded, failed, canceled, rolled_back, needs_reboot}
use lacs.Jobs.{
  JobStateMachine, Result, ok, err, invalid_transition, new, transition_to, allowed_transition,
  is_terminal, terminal,
}

-- The requests of a run, one after the other, and what each returned.
unfoldable pub run : JobStateMachine → List JobState → JobStateMachine × List Result
run m [] = (m, [])
run m (next ∷ rest) =
    let (m', r) = transition_to m next in let (last, rs) = run m' rest in (last, r ∷ rs)

-- How many requests were accepted.
unfoldable pub accepted : List Result → ℕ
accepted [] = 0
accepted (ok ∷ rs) = suc (accepted rs)
accepted (err e ∷ rs) = accepted rs

-- The steps of the diagram: an edge for each allowed pair.
pub data Edge : JobState → JobState → Type 0 where
  start : Edge queued running
  drop_queued : Edge queued canceled
  succeed : Edge running succeeded
  fail : Edge running failed
  stop : Edge running canceled
  roll_back : Edge running rolled_back
  ask_reboot : Edge running needs_reboot

Edge-allowed : {s t : JobState} → Edge s t → allowed_transition s t ≡ true
unfolding allowed_transition
Edge-allowed start = refl
Edge-allowed drop_queued = refl
Edge-allowed succeed = refl
Edge-allowed fail = refl
Edge-allowed stop = refl
Edge-allowed roll_back = refl
Edge-allowed ask_reboot = refl

pub allowed-Edge : (s t : JobState) → allowed_transition s t ≡ true → Edge s t
unfolding allowed_transition
allowed-Edge queued running h = start
allowed-Edge queued canceled h = drop_queued
allowed-Edge running succeeded h = succeed
allowed-Edge running failed h = fail
allowed-Edge running canceled h = stop
allowed-Edge running rolled_back h = roll_back
allowed-Edge running needs_reboot h = ask_reboot
allowed-Edge _ _ h = cc

-- A request is accepted exactly when the diagram has an edge from the current state to the
-- requested one; then the machine is in the requested state. Otherwise it stays as it was, and
-- the error names both states.
pub transition_to_cases :
    (m : JobStateMachine) (next : JobState)
    → (Edge m.state next × (transition_to m next ≡ (record m { state = next }, ok)))
      ⊎ ((¬ Edge m.state next)
          × (transition_to m next ≡ (m, err (invalid_transition m.state next))))
unfolding transition_to
transition_to_cases m next = elim (Bool-cases (allowed_transition m.state next)) [
  | inl allowed ↦ inl (allowed-Edge m.state next allowed, rw allowed)
  | inr refused ↦ inr ((λ e. cc (refused, Edge-allowed e)), rw refused)
]

not-Edge_of_terminal : (s t : JobState) → terminal s ≡ true → ¬ Edge s t
not-Edge_of_terminal s t h start = cc
not-Edge_of_terminal s t h drop_queued = cc
not-Edge_of_terminal s t h succeed = cc
not-Edge_of_terminal s t h fail = cc
not-Edge_of_terminal s t h stop = cc
not-Edge_of_terminal s t h roll_back = cc
not-Edge_of_terminal s t h ask_reboot = cc

terminal_of_no-Edge : (s : JobState) → ((t : JobState) → ¬ Edge s t) → terminal s ≡ true
terminal_of_no-Edge queued h = absurd (h running start)
terminal_of_no-Edge running h = absurd (h failed fail)
terminal_of_no-Edge _ h = refl

-- A machine is terminal exactly when no edge of the diagram leaves its state.
pub is_terminal-iff-no-Edge :
    (m : JobStateMachine) → (is_terminal m ≡ true) ↔ ((next : JobState) → ¬ Edge m.state next)
unfolding is_terminal
is_terminal-iff-no-Edge m =
    (λ h next. not-Edge_of_terminal m.state next h, terminal_of_no-Edge m.state)

-- how many steps a state still allows
abbrev steps_left : JobState → ℕ
steps_left queued = 2
steps_left running = 1
steps_left _ = 0

transition_to-steps_left :
    (m : JobStateMachine) (next : JobState) (rs : List Result)
    → accepted ((transition_to m next).1 ∷ rs) + steps_left (transition_to m next).0.state
      ≤ steps_left m.state + accepted rs
unfolding transition_to allowed_transition accepted
transition_to-steps_left m next rs = ground arith

run-steps_left :
    (m : JobStateMachine) (requests : List JobState)
    → accepted (run m requests).1 + steps_left (run m requests).0.state ≤ steps_left m.state
unfolding run
run-steps_left m [] = unfold accepted in omega arith
run-steps_left m (next ∷ rest) = omega (
  arith,
  transition_to-steps_left m next (run (transition_to m next).0 rest).1,
  run-steps_left (transition_to m next).0 rest,
)

-- Whatever is requested of a new job, at most two requests are accepted, and a job that took two
-- is terminal.
pub run_of_new :
    (id : String) (requests : List JobState)
    → (accepted (run (new id) requests).1 ≤ 2)
      × ((accepted (run (new id) requests).1 ≤ 1) ⊎ (is_terminal (run (new id) requests).0 ≡ true))
unfolding new is_terminal
run_of_new id requests = ground (arith, run-steps_left (new id) requests)
