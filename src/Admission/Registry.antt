-- ===== src/Admission/Registry.antt =====
-- The methods of the task registry are peaceful, one lemma for each.
use minori.Common.{ℕ, not, refl, List, Option, none, some, ◌&&◌, ◌||◌, arith, ◌==◌, String}
use minori.Common.Table.{exists, find}
use minori.Domain.{Ident, Time, cancelled}
use minori.Database.{RunRow, TaskRow, Database}
use minori.Runs.{run_is, task_is}
use minori.Schedules.{CreateScheduleInput, create, reserves}
use minori.Schedules.Change.{
  ScheduleChanges, change, change_task, write_change, name_taken, changed_task, is_in_flight,
  is_over,
}
use minori.Schedules.Transition.{
  Target, to_active, to_paused, to_deleted, transition, move_task, write_move, rebind_run,
  rebound_run, second_active, resumable, cancelled_once_run, cancel_unless_resumed, resumes,
  is_paused,
}
use minori.Schedules.Purge.{purge_terminal_bodies, purged_run}
use minori.Admission.Quiet.{
  Quiet, IsQuiet, Quiet-refl, Quiet-trans, Quiet-update, Peaceful, Peaceful-refl, Peaceful-if,
}

pub create-Peaceful :
    (lower : String → String) (id : Ident) (input : CreateScheduleInput) (now : Time)
    (db : Database)
    → Peaceful db (create lower id input now db).0
unfolding create
create-Peaceful lower id input now db =
    Peaceful-if (exists (reserves lower input.name) db.tasks) _ _ db (λ _. Peaceful-refl db)
      (λ _. record { same_events = refl; quiet_runs = Quiet-refl db.runs })

write_change-Peaceful :
    (lower : String → String) (actor : Ident) (c : ScheduleChanges) (now : Time) (t : TaskRow)
    (o : Option String) (db : Database)
    → Peaceful db (write_change lower actor c now t o db).0
unfolding write_change
write_change-Peaceful lower actor c now t none db = Peaceful-refl db
write_change-Peaceful lower actor c now t (some s) db =
    Peaceful-if (exists (name_taken lower (changed_task c now t)) db.tasks) _ _ db
      (λ _. Peaceful-refl db) (λ _. record { same_events = refl; quiet_runs = Quiet-refl db.runs })

change_task-Peaceful :
    (lower : String → String) (v : ℕ) (actor : Ident) (c : ScheduleChanges) (now : Time)
    (o : Option TaskRow) (db : Database)
    → Peaceful db (change_task lower v actor c now o db).0
unfolding change_task
change_task-Peaceful lower v actor c now none db = Peaceful-refl db
change_task-Peaceful lower v actor c now (some t) db =
    Peaceful-if (t.current_version == v) _ _ db
      (λ _.
        Peaceful-if (is_in_flight t.state) _ _ db (λ _. Peaceful-refl db)
          (λ _.
            Peaceful-if (is_over t.state) _ _ db (λ _. Peaceful-refl db)
              (λ _. write_change-Peaceful lower actor c now t _ db)))
      (λ _. Peaceful-refl db)

pub change-Peaceful :
    (lower : String → String) (id : Ident) (v : ℕ) (actor : Ident) (c : ScheduleChanges)
    (now : Time) (db : Database)
    → Peaceful db (change lower id v actor c now db).0
unfolding change
change-Peaceful lower id v actor c now db =
    change_task-Peaceful lower v actor c now (find (task_is id) db.tasks) db

rebind_run-Quiet :
    (o : Option RunRow) (next : TaskRow) (s : String) (now : Time) (rs : List RunRow)
    → Quiet rs (rebind_run o next s now rs)
unfolding rebind_run
rebind_run-Quiet none next s now rs = Quiet-refl rs
rebind_run-Quiet (some r) next s now rs =
    Quiet-update (run_is r.id) (rebound_run next s now) rs (λ x. record {
      same_id = refl;
      was_processing = λ b. absurd (cc);
      same_chat = λ b. absurd (cc);
      keeps = ground arith;
    })

pub cancelling-IsQuiet :
    (now : Time) (r : RunRow) → IsQuiet r (record r { status = cancelled; updated_at = now })
cancelling-IsQuiet now r = record {
  same_id = refl;
  was_processing = λ b. absurd (cc);
  same_chat = λ b. refl;
  keeps = ground arith;
}

cancel-Quiet :
    (target : Target) (id : Ident) (now : Time) (rs : List RunRow)
    → Quiet rs (cancel_unless_resumed target id now rs)
cancel-Quiet to_active id now rs = Quiet-refl rs
cancel-Quiet to_paused id now rs = Quiet-update _ _ rs (cancelling-IsQuiet now)
cancel-Quiet to_deleted id now rs = Quiet-update _ _ rs (cancelling-IsQuiet now)

write_move-Peaceful :
    (target : Target) (due : Option Time) (rebound : Option RunRow) (actor : Ident) (now : Time)
    (t : TaskRow) (o : Option String) (db : Database)
    → Peaceful db (write_move target due rebound actor now t o db).0
unfolding write_move
write_move-Peaceful target due rebound actor now t none db = Peaceful-refl db
write_move-Peaceful target due rebound actor now t (some s) db =
    Peaceful-if (second_active rebound t.id (cancel_unless_resumed target t.id now db.runs)) _ _ db
      (λ _. Peaceful-refl db)
      (λ _. record {
        same_events = refl;
        quiet_runs =
            Quiet-trans db.runs (cancel_unless_resumed target t.id now db.runs) _
              (cancel-Quiet target t.id now db.runs) (rebind_run-Quiet rebound _ s now _);
      })

move_task-Peaceful :
    (target : Target) (due : Option Time) (v : ℕ) (actor : Ident) (now clock : Time)
    (o : Option TaskRow) (db : Database)
    → Peaceful db (move_task target due v actor now clock o db).0
unfolding move_task
move_task-Peaceful target due v actor now clock none db = Peaceful-refl db
move_task-Peaceful target due v actor now clock (some t) db =
    Peaceful-if (t.current_version == v) _ _ db
      (λ _.
        Peaceful-if (is_over t.state || (resumes target && not (is_paused t.state))) _ _ db
          (λ _. Peaceful-refl db)
          (λ _.
            Peaceful-if (resumable target t due (cancelled_once_run target t db.runs) clock) _ _ db
              (λ _. write_move-Peaceful target due _ actor now t _ db) (λ _. Peaceful-refl db)))
      (λ _. Peaceful-refl db)

pub transition-Peaceful :
    (id : Ident) (v : ℕ) (actor : Ident) (target : Target) (due : Option Time) (now clock : Time)
    (db : Database)
    → Peaceful db (transition id v actor target due now clock db).0
unfolding transition
transition-Peaceful id v actor target due now clock db =
    move_task-Peaceful target due v actor now clock (find (task_is id) db.tasks) db

pub purge-Peaceful :
    (name : Ident → String) (at now : Time) (db : Database)
    → Peaceful db (purge_terminal_bodies name at now db).0
unfolding purge_terminal_bodies
purge-Peaceful name at now db = record {
  same_events = refl;
  quiet_runs = Quiet-update _ (purged_run now) db.runs (λ x. record {
    same_id = refl;
    was_processing = λ b. b;
    same_chat = λ b. refl;
    keeps = ground arith;
  });
}
