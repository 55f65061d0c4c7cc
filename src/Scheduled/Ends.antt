-- ===== src/Scheduled/Ends.antt =====
-- An undisturbed processing always ends its run.
use minori.Common.{
  ℕ, ◌≤◌, ◌≡◌, refl, sym, ap, subst, ◌∙◌, inl, inr, String, [], Option, none, some, Bool, true,
  false, ◌&&◌, arith, if◌then◌else◌, Bool-cases, ◌==◌,
}
use minori.Common.Table.{count, find, update}
use minori.Common.Table.Counts.{count-update-eq}
use minori.Common.Table.Keys.{count-and}
use minori.Domain.{Ident, Time}
use minori.Database.{RunRow, TaskRow, Database, run_is_processing}
use minori.Runs.{run_is, task_is}
use minori.Runs.Claim.{run_held}
use minori.Runs.Finish.{
  FinishOutcome, FinishResult, finished, completed, failed, delivery_uncertain, status_of, finish,
  finish_run, finish_with, finished_run,
}
use minori.Admission.{with_runs}
use minori.Admission.Quiet.{HasUniqueRuns, run-update}
use minori.Scheduled.{Outside, Ended, Processed, end_run}

-- No one else commits anything, and the lease is not lost.
abbrev pub undisturbed : Outside → Outside
undisturbed o = record o { others = λ k. []; lease_lost = λ k. false }

-- The run's claim holds its row, and its task is there.
pub record Holds (run : RunRow) (db : Database) : Type 0 where
  pub unique : HasUniqueRuns db.runs
  pub current : RunRow
  pub found : find (run_is run.id) db.runs ≡ some current
  pub held : run_held run.id run.claim_attempt current ≡ true
  pub same_task : current.schedule_id ≡ run.schedule_id
  pub task : TaskRow
  pub has_task : find (task_is run.schedule_id) db.tasks ≡ some task

-- The run is over: the processing returned and its row is no longer in processing.
abbrev pub IsOver : RunRow → Processed → Type 0
IsOver run p =
    (p.ended ≡ Ended.returned)
    × (r : RunRow) × (find (run_is run.id) p.database.runs ≡ some r)
    × (run_is_processing r.status ≡ false)

-- A mark on runs that changes none of what the claim is about.
pub record IsMark (f : RunRow → RunRow) : Type 0 where
  pub same_id : (r : RunRow) → (f r).id ≡ r.id
  pub same_status : (r : RunRow) → (f r).status ≡ r.status
  pub same_attempt : (r : RunRow) → (f r).claim_attempt ≡ r.claim_attempt
  pub same_schedule : (r : RunRow) → (f r).schedule_id ≡ r.schedule_id

marked-held :
    (id : Ident) (n : ℕ) (f : RunRow → RunRow) (r : RunRow)
    → IsMark f
    → run_held id n r ≡ true
    → run_held id n (f r) ≡ true
marked-held id n f r m h = rw (m.same_id r, m.same_status r, m.same_attempt r) h

pub marked-Holds :
    (run : RunRow) (p : RunRow → Bool) (f : RunRow → RunRow) (db : Database)
    → IsMark f
    → Holds run db
    → Holds run (with_runs db (update p f db.runs))
marked-Holds run p f db m h = record {
  unique = λ i.
      subst (λ n. n ≤ 1)
        (sym (count-update-eq (run_is i) p f db.runs (λ x. ap (λ (n : ℕ). n == i) (m.same_id x))))
        (h.unique i);
  current = if p h.current then f h.current else h.current;
  found = run-update run.id p f db.runs h.current m.same_id h.found;
  held = elim (Bool-cases (p h.current)) [
    | inl hit ↦ rw hit (marked-held run.id run.claim_attempt f h.current m h.held)
    | inr miss ↦ rw miss h.held
  ];
  same_task = elim (Bool-cases (p h.current)) [
    | inl hit ↦ rw hit (m.same_schedule h.current ∙ h.same_task)
    | inr miss ↦ rw miss h.same_task
  ];
  task = h.task;
  has_task = h.has_task;
}

-- What `finish` does with a held run.
abbrev Finishes :
    Ident → ℕ → FinishOutcome → Option String → Time → Database → Database × FinishResult → Type 0
Finishes id n outcome c now db out =
    (out.1 ≡ finished)
    × (out.0.runs ≡ update (run_held id n) (finished_run (status_of outcome) c now) db.runs)

finish_with-Finishes :
    (id : Ident) (n : ℕ) (outcome : FinishOutcome) (c : Option String) (now : Time) (s : Ident)
    (o : Option TaskRow) (t : TaskRow) (db : Database)
    → o ≡ some t
    → count (run_held id n) db.runs ≡ 1
    → Finishes id n outcome c now db (finish_with id n outcome c now s o db)
unfolding finish_with
finish_with-Finishes id n outcome c now s none t db q one = absurd (cc)
finish_with-Finishes id n outcome c now s (some u) t db q one = rw one (refl, refl)

finish_run-Finishes :
    (id : Ident) (n : ℕ) (outcome : FinishOutcome) (c : Option String) (now : Time)
    (o : Option RunRow) (r : RunRow) (t : TaskRow) (db : Database)
    → o ≡ some r
    → find (task_is r.schedule_id) db.tasks ≡ some t
    → count (run_held id n) db.runs ≡ 1
    → Finishes id n outcome c now db (finish_run id n outcome c now o db)
unfolding finish_run
finish_run-Finishes id n outcome c now none r t db q has one = absurd (cc)
finish_run-Finishes id n outcome c now (some r') r t db q has one =
    let e : r' ≡ r = cc in
    finish_with-Finishes id n outcome c now r'.schedule_id _ t db
      (ap (λ (x : RunRow). find (task_is x.schedule_id) db.tasks) e ∙ has) one

held_count :
    (run : RunRow) (db : Database)
    → Holds run db
    → count (run_held run.id run.claim_attempt) db.runs ≡ 1
held_count run db h = ground (
  arith,
  h.held,
  count-and (run_is run.id)
      (λ x. run_is_processing x.status && x.claim_attempt == run.claim_attempt) db.runs h.current
      (h.unique run.id) h.found,
)

finish-Finishes :
    (run : RunRow) (outcome : FinishOutcome) (c : Option String) (now : Time) (db : Database)
    → Holds run db
    → Finishes run.id run.claim_attempt outcome c now db
        (finish run.id run.claim_attempt outcome c now db)
unfolding finish
finish-Finishes run outcome c now db h =
    finish_run-Finishes run.id run.claim_attempt outcome c now _ h.current h.task db h.found
      (ap (λ s. find (task_is s) db.tasks) h.same_task ∙ h.has_task) (held_count run db h)

over_status :
    (outcome : FinishOutcome) (c : Option String) (now : Time) (r : RunRow)
    → run_is_processing (finished_run (status_of outcome) c now r).status ≡ false
over_status completed c now r = refl
over_status failed c now r = refl
over_status delivery_uncertain c now r = refl

pub end_run-IsOver :
    (o : Outside) (k : ℕ) (run : RunRow) (outcome : FinishOutcome) (c : Option String)
    (db : Database)
    → Holds run db
    → IsOver run (end_run (undisturbed o) k run outcome c db)
unfolding end_run
end_run-IsOver o k run outcome c db h =
    let (done, after) = finish-Finishes run outcome c (o.clock k) db h in
    (
      rw done refl,
      finished_run (status_of outcome) c (o.clock k) h.current,
      ap (find (run_is run.id)) after
          ∙ run-update run.id (run_held run.id run.claim_attempt)
              (finished_run (status_of outcome) c (o.clock k)) db.runs h.current (λ x. refl) h.found
          ∙ rw h.held refl,
      over_status outcome c (o.clock k) h.current,
    )
