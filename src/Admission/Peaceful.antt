-- ===== src/Admission/Peaceful.antt =====
-- The methods of the run store that are peaceful, one lemma for each.
use minori.Common.{
  ℕ, sort_by, ◌≡◌, refl, List, [], ◌∷◌, Option, none, some, false, ◌&&◌, arith, ◌==◌, String,
  opt_eqb,
}
use minori.Common.Table.{count, exists, find, select}
use minori.Domain.{Ident, Time}
use minori.Database.{RunRow, TaskRow, Database}
use minori.Runs.{
  CreateDueInput, create_due, create_for, insert_run, new_run, run_collides, run_is, task_is,
  active_run_of, is_active_state, current_instruction,
}
use minori.Runs.Claim.{run_held}
use minori.Runs.Finish.{
  FinishOutcome, status_of, completed, failed, delivery_uncertain, finish, finish_run, finish_with,
  finished_run, recover_expired, recover_each, recover_one, expired_run, run_expired,
  run_lease_earlier,
}
use minori.Admission.Quiet.{
  IsQuiet, Quiet-refl, Quiet-update, Quiet-append, Peaceful, Peaceful-refl, Peaceful-trans,
  Peaceful-if,
}

fresh_id :
    (id : Ident) (input : CreateDueInput) (rs : List RunRow)
    → exists (run_collides id input) rs ≡ false
    → count (run_is id) rs ≡ 0
fresh_id id input [] h = refl
fresh_id id input (r ∷ rs) h = ground (arith, fresh_id id input rs)

insert_run-Peaceful :
    (id : Ident) (input : CreateDueInput) (now : Time) (t : TaskRow) (o : Option String)
    (db : Database)
    → Peaceful db (insert_run id input now t o db).0
unfolding insert_run
insert_run-Peaceful id input now t none db = Peaceful-refl db
insert_run-Peaceful id input now t (some s) db =
    Peaceful-if (exists (run_collides id input) db.runs) _ _ db (λ _. Peaceful-refl db)
      (λ fresh. record {
        same_events = refl;
        quiet_runs =
            Quiet-append db.runs (new_run id input t s now) refl (fresh_id id input db.runs fresh);
      })

create_for-Peaceful :
    (id : Ident) (input : CreateDueInput) (now : Time) (o : Option TaskRow) (db : Database)
    → Peaceful db (create_for id input now o db).0
unfolding create_for
create_for-Peaceful id input now none db = Peaceful-refl db
create_for-Peaceful id input now (some t) db =
    Peaceful-if (is_active_state t.state) _ _ db
      (λ _.
        Peaceful-if (opt_eqb t.next_due_at input.expected_due_at) _ _ db
          (λ _.
            Peaceful-if (exists (active_run_of input.schedule_id) db.runs) _ _ db
              (λ _. record { same_events = refl; quiet_runs = Quiet-refl db.runs })
              (λ _. insert_run-Peaceful id input now t (current_instruction db.revisions t) db))
          (λ _. Peaceful-refl db))
      (λ _. Peaceful-refl db)

pub create_due-Peaceful :
    (id : Ident) (input : CreateDueInput) (now : Time) (db : Database)
    → Peaceful db (create_due id input now db).0
unfolding create_due
create_due-Peaceful id input now db =
    create_for-Peaceful id input now (find (task_is input.schedule_id) db.tasks) db

finished-IsQuiet :
    (outcome : FinishOutcome) (category : Option String) (now : Time) (r : RunRow)
    → IsQuiet r (finished_run (status_of outcome) category now r)
finished-IsQuiet completed category now r = ground arith
finished-IsQuiet failed category now r = ground arith
finished-IsQuiet delivery_uncertain category now r = ground arith

finish_with-Peaceful :
    (id : Ident) (n : ℕ) (outcome : FinishOutcome) (category : Option String) (now : Time)
    (schedule_id : Ident) (o : Option TaskRow) (db : Database)
    → Peaceful db (finish_with id n outcome category now schedule_id o db).0
unfolding finish_with
finish_with-Peaceful id n outcome category now s none db =
    Peaceful-if (count (run_held id n) db.runs == 1) _ _ db (λ _. Peaceful-refl db)
      (λ _. Peaceful-refl db)
finish_with-Peaceful id n outcome category now s (some t) db =
    Peaceful-if (count (run_held id n) db.runs == 1) _ _ db
      (λ _. record {
        same_events = refl;
        quiet_runs =
            Quiet-update (run_held id n) (finished_run (status_of outcome) category now) db.runs
              (finished-IsQuiet outcome category now);
      })
      (λ _. Peaceful-refl db)

finish_run-Peaceful :
    (id : Ident) (n : ℕ) (outcome : FinishOutcome) (category : Option String) (now : Time)
    (o : Option RunRow) (db : Database)
    → Peaceful db (finish_run id n outcome category now o db).0
unfolding finish_run
finish_run-Peaceful id n outcome category now none db = Peaceful-refl db
finish_run-Peaceful id n outcome category now (some r) db =
    finish_with-Peaceful id n outcome category now r.schedule_id
      (find (task_is r.schedule_id) db.tasks) db

pub finish-Peaceful :
    (id : Ident) (n : ℕ) (outcome : FinishOutcome) (category : Option String) (now : Time)
    (db : Database)
    → Peaceful db (finish id n outcome category now db).0
unfolding finish
finish-Peaceful id n outcome category now db =
    finish_run-Peaceful id n outcome category now (find (run_is id) db.runs) db

recover_one-Peaceful :
    (now clock : Time) (r : RunRow) (out : Database × ℕ)
    → Peaceful out.0 (recover_one now clock r out).0
unfolding recover_one
recover_one-Peaceful now clock r (db, k) =
    Peaceful-if (count (λ x. x.id == r.id && run_expired clock x) db.runs == 1) _ _ db
      (λ _. record {
        same_events = refl;
        quiet_runs = Quiet-update _ (expired_run now) db.runs (λ x. record {
          same_id = refl;
          was_processing = λ b. absurd (cc);
          same_chat = λ b. refl;
          keeps = ground arith;
        });
      })
      (λ _. Peaceful-refl db)

recover_each-Peaceful :
    (now clock : Time) (rs : List RunRow) (out : Database × ℕ)
    → Peaceful out.0 (recover_each now clock rs out).0
unfolding recover_each
recover_each-Peaceful now clock [] out = Peaceful-refl out.0
recover_each-Peaceful now clock (r ∷ rs) out =
    Peaceful-trans out.0 (recover_one now clock r out).0 _ (recover_one-Peaceful now clock r out)
      (recover_each-Peaceful now clock rs (recover_one now clock r out))

pub recover_expired-Peaceful :
    (now clock : Time) (db : Database) → Peaceful db (recover_expired now clock db).0
unfolding recover_expired
recover_expired-Peaceful now clock db =
    recover_each-Peaceful now clock (sort_by run_lease_earlier (select (run_expired clock) db.runs))
      (db, 0)
