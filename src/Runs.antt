-- ===== src/Runs.antt =====
-- The runs of scheduled tasks: `PostgresScheduledRunStore` of src/storage/scheduled-run-store.ts.
-- Each method is one transaction on the database. `now` is the transaction's start, `clock` its
-- reading of `clock_timestamp()`. The run that a method returns is its row.
pub mod Claim
pub mod Deliver
pub mod Finish
use text.Mathlib.Text.{◌==◌ as str_eq}
use minori.Common.{
  ℕ, ◌+◌, String, List, [], ◌∷◌, ◌++◌, Option, none, some, Bool, true, false, ◌&&◌, ◌||◌, max, ◌==◌,
  if◌then◌else◌, or_default, or_else, opt_eqb, is_some,
}
use minori.Common.Table.{exists, find, update}
use minori.Domain.{Ident, Time, is_once, ScheduleState, active, in_flight, RunStatus, queued}
use minori.Database.{RunRow, TaskRow, RevisionRow, Database, DeliveryKey, result_key, run_is_active}

pub record CreateDueInput : Type 0 where
  pub schedule_id : Ident
  pub expected_due_at : Time
  pub scheduled_for : Time
  pub next_due_at : Option Time

-- The last two are thrown: the transaction is rolled back.
pub data CreateDueResult : Type 0 where
  created : RunRow → CreateDueResult
  not_found not_due inactive active_run : CreateDueResult
  body_unavailable unique_violation : CreateDueResult

abbrev pub is_active_state : ScheduleState → Bool
is_active_state ScheduleState.active = true
is_active_state _ = false

abbrev pub task_is : Ident → TaskRow → Bool
task_is i t = t.id == i

abbrev pub run_is : Ident → RunRow → Bool
run_is i r = r.id == i

-- `schedule_id = … and status in ('queued', 'processing')`
abbrev pub active_run_of : Ident → RunRow → Bool
active_run_of i r = r.schedule_id == i && run_is_active r.status

abbrev pub revision_is : Ident → ℕ → RevisionRow → Bool
revision_is i v r = r.schedule_id == i && r.version == v

abbrev pub instruction_of : Option RevisionRow → Option String
instruction_of none = none
instruction_of (some r) = r.instruction

-- `!instruction`: an empty instruction is refused as a missing one is.
abbrev pub usable : Option String → Option String
usable none = none
usable (some s) = if str_eq s "" then none else some s

-- The instruction of the task's current version.
unfoldable pub current_instruction : List RevisionRow → TaskRow → Option String
current_instruction revisions t =
    usable (instruction_of (find (revision_is t.id t.current_version) revisions))

unfoldable pub new_run : Ident → CreateDueInput → TaskRow → String → Time → RunRow
new_run id input t instruction now = record {
  id = id;
  schedule_id = input.schedule_id;
  scheduled_for = input.scheduled_for;
  task_version = t.current_version;
  instruction = instruction;
  result_target = t.result_target;
  scheduled_context = t.scheduled_context;
  status = queued;
  claim_attempt = 0;
  leased_until = none;
  write_started_at = none;
  delivery_idempotency_key = some (result_key id);
  prepared_result_text = none;
  delivery_attempted_at = none;
  delivery_message_id = none;
  fallback_attempted_at = none;
  fallback_message_id = none;
  fallback_outcome_category = none;
  outcome_category = none;
  created_at = now;
  updated_at = now;
}

-- The occurrence is folded into the task while an earlier run is active.
abbrev pub folded_task : CreateDueInput → Time → TaskRow → TaskRow
folded_task input now t = record t {
  latest_missed_at =
      some (max (or_default t.latest_missed_at input.scheduled_for) input.scheduled_for);
  next_due_at = or_else input.next_due_at t.next_due_at;
  updated_at = now;
}

abbrev pub dispatched_task : CreateDueInput → Time → TaskRow → TaskRow
dispatched_task input now t = record t {
  state = if is_once t.schedule then in_flight else active;
  next_due_at = if is_once t.schedule then none else input.next_due_at;
  latest_missed_at = none;
  latest_run_status = some queued;
  updated_at = now;
}

-- The primary key, and `scheduled_runs_schedule_occurrence_unique`. The third index, one active run
-- for a task, is respected by the test of `createDue` that comes before.
abbrev pub run_collides : Ident → CreateDueInput → RunRow → Bool
run_collides id input r =
    r.id == id || (r.schedule_id == input.schedule_id && r.scheduled_for == input.scheduled_for)

unfoldable pub insert_run :
    Ident → CreateDueInput → Time → TaskRow → Option String → Database → Database × CreateDueResult
unfolding new_run
insert_run id input now t none db = (db, body_unavailable)
insert_run id input now t (some instruction) db =
    let run = new_run id input t instruction now in
    if exists (run_collides id input) db.runs then (db, unique_violation) else (
      record db {
        tasks = update (task_is input.schedule_id) (dispatched_task input now) db.tasks;
        runs = db.runs ++ run ∷ [];
      },
      created run,
    )

unfoldable pub create_for :
    Ident → CreateDueInput → Time → Option TaskRow → Database → Database × CreateDueResult
unfolding insert_run current_instruction
create_for id input now none db = (db, not_found)
create_for id input now (some t) db =
    if is_active_state t.state
    then if opt_eqb t.next_due_at input.expected_due_at
      then if exists (active_run_of input.schedule_id) db.runs
        then (
          record db { tasks = update (task_is input.schedule_id) (folded_task input now) db.tasks },
          active_run,
        )
        else insert_run id input now t (current_instruction db.revisions t) db
      else (db, not_due)
    else (db, inactive)

-- `id` is the `randomUUID()` of the new run.
unfoldable pub create_due : Ident → CreateDueInput → Time → Database → Database × CreateDueResult
unfolding create_for
create_due id input now db = create_for id input now (find (task_is input.schedule_id) db.tasks) db
