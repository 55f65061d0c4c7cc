-- ===== src/Admission/Kept.antt =====
-- The methods of the stores and what they keep of a task.
use minori.Common.{
  ℕ, ◌≡◌, refl, sym, subst, ◌∙◌, List, [], ◌∷◌, Option, none, some, false, ◌&&◌, ◌||◌, not, arith,
  ◌==◌, ==_iff, String, sort_by,
}
use minori.Common.Table.{exists, find, select}
use minori.Common.Table.Counts.{find-some}
use minori.Common.Table.Keys.{find-append}
use minori.Domain.{Ident, Time}
use minori.Database.{RunRow, TaskRow, Database}
use minori.Runs.{create_due, task_is}
use minori.Runs.Claim.{claim_next, next_run}
use minori.Runs.Finish.{finish, recover_expired, run_expired, run_lease_earlier}
use minori.Schedules.{CreateScheduleInput, create, reserves, new_task}
use minori.Schedules.Change.{
  ScheduleChanges, change, change_task, write_change, name_taken, changed_task, is_in_flight,
  is_over,
}
use minori.Schedules.Transition.{
  Target, transition, move_task, write_move, moved_task, second_active, resumable,
  cancelled_once_run, cancel_unless_resumed, resumes, is_paused,
}
use minori.Schedules.Purge.{purge_terminal_bodies, purged_task}
use minori.Admission.{Move, advance}
use minori.Admission.Lifetimes.{
  TaskKeeps-refl, KeepsTasks, KeepsTasks-refl, KeepsTasks-update, KeepsTasks-row, KeepsTasks-if,
}
use minori.Admission.KeptRuns.{
  candidate-KeepsTasks, create_for-KeepsTasks, finish_run-KeepsTasks, recover_each-KeepsTasks,
}

create-KeepsTasks :
    (lower : String → String) (id : Ident) (input : CreateScheduleInput) (now : Time)
    (db : Database)
    → KeepsTasks db.tasks (create lower id input now db).0.tasks
unfolding create
create-KeepsTasks lower id input now db =
    KeepsTasks-if (exists (reserves lower input.name) db.tasks) _ _ db.tasks
      (λ _. KeepsTasks-refl db.tasks)
      (λ _ i t h. (
        t,
        find-append (task_is i) db.tasks (new_task id input now ∷ []) ∙ rw h refl,
        TaskKeeps-refl t,
      ))

write_change-KeepsTasks :
    (lower : String → String) (actor : Ident) (c : ScheduleChanges) (now : Time) (t : TaskRow)
    (o : Option String) (db : Database)
    → find (task_is t.id) db.tasks ≡ some t
    → is_over t.state ≡ false
    → KeepsTasks db.tasks (write_change lower actor c now t o db).0.tasks
unfolding write_change
write_change-KeepsTasks lower actor c now t none db read on = KeepsTasks-refl db.tasks
write_change-KeepsTasks lower actor c now t (some s) db read on =
    KeepsTasks-if (exists (name_taken lower (changed_task c now t)) db.tasks) _ _ db.tasks
      (λ _. KeepsTasks-refl db.tasks)
      (λ _. KeepsTasks-row t.id (changed_task c now) db.tasks t read (λ x. refl) (ground arith))

read_again :
    (id : Ident) (ts : List TaskRow) (t : TaskRow)
    → find (task_is id) ts ≡ some t
    → find (task_is t.id) ts ≡ some t
read_again id ts t h =
    let same : t.id ≡ id = (==_iff t.id id).0 ((find-some (task_is id) ts t h).0) in
    subst (λ k. find (task_is k) ts ≡ some t) (sym same) h

change_task-KeepsTasks :
    (lower : String → String) (id : Ident) (v : ℕ) (actor : Ident) (c : ScheduleChanges)
    (now : Time) (o : Option TaskRow) (db : Database)
    → find (task_is id) db.tasks ≡ o
    → KeepsTasks db.tasks (change_task lower v actor c now o db).0.tasks
unfolding change_task
change_task-KeepsTasks lower id v actor c now none db read = KeepsTasks-refl db.tasks
change_task-KeepsTasks lower id v actor c now (some t) db read =
    KeepsTasks-if (t.current_version == v) _ _ db.tasks
      (λ _.
        KeepsTasks-if (is_in_flight t.state) _ _ db.tasks (λ _. KeepsTasks-refl db.tasks)
          (λ _.
            KeepsTasks-if (is_over t.state) _ _ db.tasks (λ _. KeepsTasks-refl db.tasks)
              (λ on.
                write_change-KeepsTasks lower actor c now t _ db (read_again id db.tasks t read)
                  on)))
      (λ _. KeepsTasks-refl db.tasks)

write_move-KeepsTasks :
    (target : Target) (due : Option Time) (rebound : Option RunRow) (actor : Ident) (now : Time)
    (t : TaskRow) (o : Option String) (db : Database)
    → find (task_is t.id) db.tasks ≡ some t
    → is_over t.state ≡ false
    → KeepsTasks db.tasks (write_move target due rebound actor now t o db).0.tasks
unfolding write_move
write_move-KeepsTasks target due rebound actor now t none db read on = KeepsTasks-refl db.tasks
write_move-KeepsTasks target due rebound actor now t (some s) db read on =
    KeepsTasks-if (second_active rebound t.id (cancel_unless_resumed target t.id now db.runs)) _ _
      db.tasks (λ _. KeepsTasks-refl db.tasks)
      (λ _.
        KeepsTasks-row t.id (moved_task target due _ _ now) db.tasks t read (λ x. refl)
          (ground arith))

move_task-KeepsTasks :
    (id : Ident) (target : Target) (due : Option Time) (v : ℕ) (actor : Ident) (now clock : Time)
    (o : Option TaskRow) (db : Database)
    → find (task_is id) db.tasks ≡ o
    → KeepsTasks db.tasks (move_task target due v actor now clock o db).0.tasks
unfolding move_task
move_task-KeepsTasks id target due v actor now clock none db read = KeepsTasks-refl db.tasks
move_task-KeepsTasks id target due v actor now clock (some t) db read =
    KeepsTasks-if (t.current_version == v) _ _ db.tasks
      (λ _.
        KeepsTasks-if (is_over t.state || (resumes target && not (is_paused t.state))) _ _ db.tasks
          (λ _. KeepsTasks-refl db.tasks)
          (λ on.
            KeepsTasks-if (resumable target t due (cancelled_once_run target t db.runs) clock) _ _
              db.tasks
              (λ _.
                write_move-KeepsTasks target due _ actor now t _ db (read_again id db.tasks t read)
                  (ground arith))
              (λ _. KeepsTasks-refl db.tasks)))
      (λ _. KeepsTasks-refl db.tasks)

pub advance-KeepsTasks : (m : Move) (db : Database) → KeepsTasks db.tasks (advance m db).tasks
unfolding advance claim_next create_due finish recover_expired change transition
    purge_terminal_bodies
advance-KeepsTasks (Move.claims_next lease_ms now clock) db =
    candidate-KeepsTasks lease_ms now clock (next_run db clock) db
advance-KeepsTasks (Move.creates_due id input now) db = create_for-KeepsTasks id input now _ db refl
advance-KeepsTasks (Move.finishes id n outcome category now) db =
    finish_run-KeepsTasks id n outcome category now _ db
advance-KeepsTasks (Move.recovers_expired now clock) db =
    recover_each-KeepsTasks now clock
      (sort_by run_lease_earlier (select (run_expired clock) db.runs)) (db, 0)
advance-KeepsTasks (Move.creates_task lower id input now) db =
    create-KeepsTasks lower id input now db
advance-KeepsTasks (Move.changes_task lower id v actor c now) db =
    change_task-KeepsTasks lower id v actor c now _ db refl
advance-KeepsTasks (Move.moves_task id v actor target due now clock) db =
    move_task-KeepsTasks id target due v actor now clock _ db refl
advance-KeepsTasks (Move.purges name at now) db =
    KeepsTasks-update _ (purged_task name at now) db.tasks (λ t. refl) (λ i t h hit. ground arith)
advance-KeepsTasks m db = KeepsTasks-refl db.tasks
