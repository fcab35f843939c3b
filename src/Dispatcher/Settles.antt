-- ===== src/Dispatcher/Settles.antt =====
-- How an execution that has claimed its transaction ends: what was run, and the status of the
-- transaction.
use lacs.Prelude.{
  String, ◌≡◌, ◌⊎◌, inl, inr, refl, sym, ap, subst, ◌∙◌, true, false, Option, some, List, [], ◌∷◌,
  ◌++◌, arith, str_eq, eq_refl, ◌&&◌,
}
use lacs.Types.{JobState, queued, running, same_state}
use lacs.Jobs.{allowed_transition}
use lacs.Executor.{ActionSpec, Executor}
use lacs.Table.{Row, by_id}
use lacs.Transactions.{TransactionStore, claim_for_execution, update_status}
use lacs.Transactions.Spent.{by_id-update_where}
use lacs.Transactions.Lifecycle.{by_id-id}
use lacs.Dispatcher.{
  World, Summary, send_response, progress, run_action, initial_result, attempt_rollback_if_needed,
  finish, run_claimed, completion_line, job_started, authorization_passed, executing,
}
use lacs.Dispatcher.Keeps.{
  Keeps-trans, send_response_cases, Keeps-send_response, Keeps-progress, Keeps-run_action,
}
use lacs.Dispatcher.Outcomes.{
  Settles, success, success_reboot, failure, failure_undone, failure_kept, run_action-Ran,
  initial_result-Initial, attempt_rollback-Settles,
}

finish_store :
    (job id : String) (s : JobState) (m : Summary) (r : Option String) (w : World)
    → ((finish job id s m r w).0.store ≡ (update_status id s w.store).0)
      × ((finish job id s m r w).0.ran ≡ w.ran)
unfolding finish
finish_store job id s m r w =
    let k = Keeps-send_response _ (record w { store = (update_status id s w.store).0 }) in
    (k.store, k.ran)

run_claimed_cases :
    (x : Executor) (job request name : String) (spec : ActionSpec) (id : String) (w : World)
    → ((w.frames_left ≡ 0) × (run_claimed x job request name spec id w ≡ (w, false)))
      ⊎ ((s : JobState) × Settles x name spec w.ran
            (run_claimed x job request name spec id w).0.ran
            s
          × ((run_claimed x job request name spec id w).0.store ≡ (update_status id s w.store).0))
unfolding run_claimed
run_claimed_cases x job request name spec id w =
    elim (send_response_cases (job_started request job id) w) [
      | inl (gone, e) ↦ inl (gone, rw (e, run_claimed))
      | inr (started, k1) ↦
          let w1 = (send_response (job_started request job id) w).0 in
          let w1' = progress job (authorization_passed name) w1 in
          let w2 = progress job (executing name) w1' in
          let k2 =
            Keeps-trans w w1 w2 k1
              (Keeps-trans w1 w1' w2 (Keeps-progress job _ w1) (Keeps-progress job _ w1')) in
          let (w3, outcome) = run_action x job spec w2 in
          let k3 = Keeps-run_action x job spec w2 in
          let w4 = progress job (completion_line name outcome) w3 in
          let k4 = Keeps-progress job (completion_line name outcome) w3 in
          let first = initial_result name spec outcome in
          let (stored, settles) =
            attempt_rollback-Settles x job name spec outcome first.0 first.1 w4 w.ran
              (run_action-Ran x job spec w2) (initial_result-Initial name spec outcome)
              (k4.ran ∙ k3.ran ∙ ap (λ l. l ++ spec ∷ []) k2.ran) in
          let (w5, (status, summary, reference)) =
            attempt_rollback_if_needed x job name spec first.0 first.1 w4 in
          let (f, g) = finish_store job id status summary reference w5 in
          inr (
            status,
            rw (started, run_claimed)
                (subst (λ l. Settles x name spec w.ran l status) (sym g) settles),
            rw (started, run_claimed)
                (f
                  ∙ ap (λ st. (update_status id status st).0)
                      (stored ∙ k4.store ∙ k3.store ∙ k2.store)),
          )
    ]

settled :
    (x : Executor) (name : String) (spec : ActionSpec) (before after : List ActionSpec)
    (s : JobState)
    → Settles x name spec before after s
    → allowed_transition running s ≡ true
unfolding allowed_transition
settled x name spec before after _ (success _ _ _ _ _) = refl
settled x name spec before after _ (success_reboot _ _ _ _ _) = refl
settled x name spec before after _ (failure _ _ _ _ _) = refl
settled x name spec before after _ (failure_undone _ _ _ _ _ _ _ _) = refl
settled x name spec before after _ (failure_kept _ _ _ _ _ _ _ _) = refl

update_status_running :
    (id : String) (s : JobState) (store : TransactionStore) (r : Row)
    → by_id id store.rows ≡ some r
    → r.status ≡ running
    → allowed_transition running s ≡ true
    → by_id id (update_status id s store).0.rows ≡ some (record r { status = s })
unfolding update_status
update_status_running id s store r there now edge =
    let allowed : allowed_transition r.status s ≡ true =
      ap (λ u. allowed_transition u s) now ∙ edge in
    let hit : str_eq r.transaction_id id ≡ true =
      ap (λ u. str_eq u id) (by_id-id id store.rows r there) ∙ eq_refl id in
    rw (there, allowed, update_status)
      (by_id-update_where id (λ x. str_eq x.transaction_id id) s store.rows r there
        ∙ ap some (rw hit))

claim_running :
    (id : String) (store : TransactionStore) (r : Row)
    → by_id id store.rows ≡ some r
    → r.status ≡ queued
    → by_id id (claim_for_execution id store).0.rows ≡ some (record r { status = running })
unfolding claim_for_execution same_state
claim_running id store r there now =
    let hit : (str_eq r.transaction_id id && same_state r.status queued) ≡ true =
      ground (arith, now, by_id-id id store.rows r there, eq_refl id) in
    by_id-update_where id (λ x. str_eq x.transaction_id id && same_state x.status queued) running
      store.rows r there
    ∙ ap some (rw hit)

-- An execution of a queued transaction that it has claimed runs the action once and ends it as the
-- run came out. After a success the transaction is succeeded, or needs a reboot where the action
-- does, and nothing else was run. After a failure it is failed; but where the action has a rollback
-- and one is defined for its name, that one is run, once, and if it succeeds the transaction is rolled
-- back. The exception is a peer that is gone before the first frame: then nothing runs, and the
-- transaction stays running.
pub run_claimed-Settles :
    (x : Executor) (job request name : String) (spec : ActionSpec) (id : String) (w : World)
    (r : Row)
    → by_id id w.store.rows ≡ some r
    → r.status ≡ queued
    → let result =
        run_claimed x job request name spec id
          (record w { store = (claim_for_execution id w.store).0 }) in
      ((w.frames_left ≡ 0)
        × (result.1 ≡ false)
        × (result.0.ran ≡ w.ran)
        × (by_id id result.0.store.rows ≡ some (record r { status = running })))
      ⊎ ((s : JobState) × Settles x name spec w.ran result.0.ran s
          × (by_id id result.0.store.rows ≡ some (record r { status = s })))
run_claimed-Settles x job request name spec id w r there now =
    let claimed = claim_running id w.store r there now in
    elim (run_claimed_cases x job request name spec id
      (record w { store = (claim_for_execution id w.store).0 })) [
        | inl (gone, e) ↦ inl (
          gone,
          ap (λ q. q.1) e,
          ap (λ q. q.0.ran) e,
          ap (λ q. by_id id q.0.store.rows) e ∙ claimed,
        )
        | inr (s, settles, stored) ↦ inr (
          s,
          settles,
          ap (λ st. by_id id st.rows) stored
              ∙ update_status_running id s (claim_for_execution id w.store).0
                  (record r { status = running }) claimed refl
                  (settled x name spec w.ran _ s settles),
        )
      ]
