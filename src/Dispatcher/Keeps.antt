-- ===== src/Dispatcher/Keeps.antt =====
-- The steps of crates/sysknife-daemon/src/dispatcher.rs that leave the store and the runs alone.
use lacs.Prelude.{
  ℕ, zero, suc, String, ◌≡◌, ◌⊎◌, inl, inr, refl, ◌∙◌, true, false, List, [], ◌∷◌, arith,
  Bool-cases, str_eq,
}
use lacs.Executor.{
  ActionSpec, ActionMechanism, Executor, command, file_scan, file_write, file_patch, file_delete,
}
use lacs.Dispatcher.{
  World, Frame, Line, send_response, progress, progress_lines, note_run, run_action, run_mechanism,
}

-- The world `v` has the store and the runs of `w`.
pub record Keeps (w v : World) : Type 0 where
  pub store : v.store ≡ w.store
  pub ran : v.ran ≡ w.ran

pub Keeps-trans : (u v w : World) → Keeps u v → Keeps v w → Keeps u w
Keeps-trans u v w h k = record { store = k.store ∙ h.store; ran = k.ran ∙ h.ran }

pub Keeps-refl : (w : World) → Keeps w w
Keeps-refl w = record { store = refl; ran = refl }

pub send_response_cases :
    (f : Frame) (w : World)
    → ((w.frames_left ≡ 0) × (send_response f w ≡ (w, false)))
      ⊎ (((send_response f w).1 ≡ true) × Keeps w (send_response f w).0)
unfolding send_response
send_response_cases f w = go w.frames_left refl
  where
    go :
        (n : ℕ)
        → w.frames_left ≡ n
        → ((w.frames_left ≡ 0) × (send_response f w ≡ (w, false)))
          ⊎ (((send_response f w).1 ≡ true) × Keeps w (send_response f w).0)
    go zero e = inl (e, ground (arith, e))
    go (suc n) e =
        inr (ground (arith, e), record { store = ground (arith, e); ran = ground (arith, e) })

pub Keeps-send_response : (f : Frame) (w : World) → Keeps w (send_response f w).0
Keeps-send_response f w = elim (send_response_cases f w) [
  | inl (_, e) ↦ rw e (Keeps-refl w)
  | inr (_, k) ↦ k
]

pub Keeps-progress : (job : String) (l : Line) (w : World) → Keeps w (progress job l w)
unfolding progress
Keeps-progress job l w = Keeps-send_response _ w

pub Keeps-progress_lines :
    (job : String) (ls : List String) (w : World) → Keeps w (progress_lines job ls w)
unfolding progress_lines
Keeps-progress_lines job [] w = Keeps-refl w
Keeps-progress_lines job (l ∷ ls) w = elim (Bool-cases (str_eq l "")) [
  | inl e ↦ rw (e, progress_lines) (Keeps-progress_lines job ls w)
  | inr e ↦
      rw (e, progress_lines)
        (Keeps-trans w _ _ (Keeps-progress job _ w) (Keeps-progress_lines job ls _))
]

pub Keeps-run_mechanism :
    (x : Executor) (job : String) (spec : ActionSpec) (m : ActionMechanism) (w : World)
    → Keeps w (run_mechanism x job spec m w).0
unfolding run_mechanism
Keeps-run_mechanism x job spec (command p args) w =
    Keeps-progress_lines job (x.run_command p args).0 w
Keeps-run_mechanism x job spec (file_scan p) w = Keeps-refl w
Keeps-run_mechanism x job spec (file_write p c) w = Keeps-refl w
Keeps-run_mechanism x job spec (file_patch p a b) w = Keeps-refl w
Keeps-run_mechanism x job spec (file_delete p) w = Keeps-refl w

pub Keeps-run_action :
    (x : Executor) (job : String) (spec : ActionSpec) (w : World)
    → Keeps (note_run spec w) (run_action x job spec w).0
unfolding run_action
Keeps-run_action x job spec w = Keeps-run_mechanism x job spec spec.mechanism (note_run spec w)
