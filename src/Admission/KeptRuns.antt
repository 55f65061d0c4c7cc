-- ===== src/Admission/KeptRuns.antt =====
-- The methods of the run store and what they keep of a task.
use minori.Common.{
  ℕ, ◌≡◌, refl, List, [], ◌∷◌, Option, none, some, true, ◌&&◌, arith, ◌==◌, String, opt_eqb,
}
use minori.Common.Table.{count, exists, find}
use minori.Domain.{Ident, Time, processing}
use minori.Database.{RunRow, TaskRow, Database}
use minori.Runs.{
  CreateDueInput, create_for, insert_run, run_collides, task_is, active_run_of, is_active_state,
  current_instruction, folded_task, dispatched_task,
}
use minori.Runs.Claim.{claim_candidate, task_may_run, run_held, with_run_status}
use minori.Runs.Finish.{
  FinishOutcome, status_of, finish_run, finish_with, finished_task, expired_task, recover_each,
  recover_one, run_expired,
}
use minori.Admission.Lifetimes.{
  KeepsTasks, KeepsTasks-refl, KeepsTasks-trans, KeepsTasks-update, KeepsTasks-row, KeepsTasks-if,
}

pub candidate-KeepsTasks :
    (lease_ms now clock : Time) (o : Option RunRow) (db : Database)
    → KeepsTasks db.tasks (claim_candidate lease_ms now clock o db).0.tasks
unfolding claim_candidate
candidate-KeepsTasks lease_ms now clock none db = KeepsTasks-refl db.tasks
candidate-KeepsTasks lease_ms now clock (some r) db =
    KeepsTasks-if (task_may_run (find (task_is r.schedule_id) db.tasks)) _ _ db.tasks
      (λ _.
        KeepsTasks-update _ (with_run_status processing now) db.tasks (λ t. refl)
          (λ i t h hit. ground arith))
      (λ _. KeepsTasks-refl db.tasks)

insert_run-KeepsTasks :
    (id : Ident) (input : CreateDueInput) (now : Time) (t : TaskRow) (o : Option String)
    (db : Database)
    → find (task_is input.schedule_id) db.tasks ≡ some t
    → is_active_state t.state ≡ true
    → KeepsTasks db.tasks (insert_run id input now t o db).0.tasks
unfolding insert_run
insert_run-KeepsTasks id input now t none db read act = KeepsTasks-refl db.tasks
insert_run-KeepsTasks id input now t (some s) db read act =
    KeepsTasks-if (exists (run_collides id input) db.runs) _ _ db.tasks
      (λ _. KeepsTasks-refl db.tasks)
      (λ _.
        KeepsTasks-row input.schedule_id (dispatched_task input now) db.tasks t read (λ x. refl)
          (ground arith))

pub create_for-KeepsTasks :
    (id : Ident) (input : CreateDueInput) (now : Time) (o : Option TaskRow) (db : Database)
    → find (task_is input.schedule_id) db.tasks ≡ o
    → KeepsTasks db.tasks (create_for id input now o db).0.tasks
unfolding create_for
create_for-KeepsTasks id input now none db read = KeepsTasks-refl db.tasks
create_for-KeepsTasks id input now (some t) db read =
    KeepsTasks-if (is_active_state t.state) _ _ db.tasks
      (λ act.
        KeepsTasks-if (opt_eqb t.next_due_at input.expected_due_at) _ _ db.tasks
          (λ _.
            KeepsTasks-if (exists (active_run_of input.schedule_id) db.runs) _ _ db.tasks
              (λ _.
                KeepsTasks-row input.schedule_id (folded_task input now) db.tasks t read (λ x. refl)
                  (ground arith))
              (λ _.
                insert_run-KeepsTasks id input now t (current_instruction db.revisions t) db read
                  act))
          (λ _. KeepsTasks-refl db.tasks))
      (λ _. KeepsTasks-refl db.tasks)

finish_with-KeepsTasks :
    (id : Ident) (n : ℕ) (outcome : FinishOutcome) (category : Option String) (now : Time)
    (schedule_id : Ident) (o : Option TaskRow) (db : Database)
    → find (task_is schedule_id) db.tasks ≡ o
    → KeepsTasks db.tasks (finish_with id n outcome category now schedule_id o db).0.tasks
unfolding finish_with
finish_with-KeepsTasks id n outcome category now s none db read =
    KeepsTasks-if (count (run_held id n) db.runs == 1) _ _ db.tasks (λ _. KeepsTasks-refl db.tasks)
      (λ _. KeepsTasks-refl db.tasks)
finish_with-KeepsTasks id n outcome category now s (some t) db read =
    KeepsTasks-if (count (run_held id n) db.runs == 1) _ _ db.tasks
      (λ _.
        KeepsTasks-row s (finished_task t (status_of outcome) now) db.tasks t read (λ x. refl)
          (ground arith))
      (λ _. KeepsTasks-refl db.tasks)

pub finish_run-KeepsTasks :
    (id : Ident) (n : ℕ) (outcome : FinishOutcome) (category : Option String) (now : Time)
    (o : Option RunRow) (db : Database)
    → KeepsTasks db.tasks (finish_run id n outcome category now o db).0.tasks
unfolding finish_run
finish_run-KeepsTasks id n outcome category now none db = KeepsTasks-refl db.tasks
finish_run-KeepsTasks id n outcome category now (some r) db =
    finish_with-KeepsTasks id n outcome category now r.schedule_id _ db refl

recover_one-KeepsTasks :
    (now clock : Time) (r : RunRow) (out : Database × ℕ)
    → KeepsTasks out.0.tasks (recover_one now clock r out).0.tasks
unfolding recover_one
recover_one-KeepsTasks now clock r (db, k) =
    KeepsTasks-if (count (λ x. x.id == r.id && run_expired clock x) db.runs == 1) _ _ db.tasks
      (λ _.
        KeepsTasks-update _ (expired_task now clock) db.tasks (λ x. refl)
          (λ i t h hit. ground arith))
      (λ _. KeepsTasks-refl db.tasks)

pub recover_each-KeepsTasks :
    (now clock : Time) (rs : List RunRow) (out : Database × ℕ)
    → KeepsTasks out.0.tasks (recover_each now clock rs out).0.tasks
unfolding recover_each
recover_each-KeepsTasks now clock [] out = KeepsTasks-refl out.0.tasks
recover_each-KeepsTasks now clock (r ∷ rs) out =
    KeepsTasks-trans out.0.tasks (recover_one now clock r out).0.tasks _
      (recover_one-KeepsTasks now clock r out)
      (recover_each-KeepsTasks now clock rs (recover_one now clock r out))
