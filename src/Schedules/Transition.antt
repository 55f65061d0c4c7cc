-- ===== src/Schedules/Transition.antt =====
-- `pause`, `resume` and `delete`: the transitions of a task, with its runs. `deleted_at`, which the code
-- takes from the clock of its own process, is the time of the transaction here.
use minori.Common.{
  ℕ, ◌+◌, String, List, [], ◌∷◌, ◌++◌, Option, none, some, Bool, true, false, ◌&&◌, ◌||◌, not, ltb,
  ◌==◌, if◌then◌else◌, or_else, sort_by, first, is_some,
}
use minori.Common.Table.{select, exists, find, update}
use minori.Domain.{
  Ident, Time, is_once, ScheduleState, active, paused, in_flight, deleted, queued, cancelled,
}
use minori.Database.{RunRow, TaskRow, Database, run_is_processing, run_is_cancelled}
use minori.Runs.{active_run_of, task_is, run_is, usable}
use minori.Runs.Finish.{queued_of_task}
use minori.Schedules.{
  MutationResult, updated, not_found, version_conflict, invalid_state, schedule_body_purged,
  database_error,
}
use minori.Schedules.Change.{is_over, revision_of, stored_instruction}

-- `'active' | 'paused' | 'deleted'`
pub data Target : Type 0 where
  to_active to_paused to_deleted : Target

abbrev pub target_state : Target → ScheduleState
target_state to_active = active
target_state to_paused = paused
target_state to_deleted = deleted

abbrev pub resumes : Target → Bool
resumes to_active = true
resumes _ = false

abbrev pub deletes : Target → Bool
deletes to_deleted = true
deletes _ = false

abbrev pub is_paused : ScheduleState → Bool
is_paused ScheduleState.paused = true
is_paused _ = false

abbrev pub cancelled_of : Ident → RunRow → Bool
cancelled_of id r = r.schedule_id == id && run_is_cancelled r.status

-- `order by scheduled_for desc`
abbrev pub later_occurrence : RunRow → RunRow → Bool
later_occurrence a b = ltb b.scheduled_for a.scheduled_for

-- The cancelled run that a resumed one-time task takes up again.
unfoldable pub cancelled_once_run : Target → TaskRow → List RunRow → Option RunRow
cancelled_once_run target t runs =
    if resumes target && is_once t.schedule
    then first (sort_by later_occurrence (select (cancelled_of t.id) runs))
    else none

abbrev pub has_processing : Ident → List RunRow → Bool
has_processing id runs = exists (λ r. r.schedule_id == id && run_is_processing r.status) runs

abbrev pub moved_task : Target → Option Time → Bool → Bool → Time → TaskRow → TaskRow
moved_task target next_due_at processing rebinds now t = record t {
  state = if rebinds then in_flight else target_state target;
  current_version = t.current_version + 1;
  name_reserved = not (deletes target) || processing;
  next_due_at = if resumes target && not rebinds then or_else next_due_at t.next_due_at else none;
  deleted_at = if deletes target then some now else none;
  updated_at = now;
}

abbrev pub rebound_run : TaskRow → String → Time → RunRow → RunRow
rebound_run next instruction now r = record r {
  status = queued;
  task_version = next.current_version;
  instruction = instruction;
  result_target = next.result_target;
  scheduled_context = next.scheduled_context;
  claim_attempt = 0;
  leased_until = none;
  updated_at = now;
}

unfoldable pub rebind_run : Option RunRow → TaskRow → String → Time → List RunRow → List RunRow
rebind_run none next instruction now runs = runs
rebind_run (some r) next instruction now runs =
    update (run_is r.id) (rebound_run next instruction now) runs

abbrev pub cancel_unless_resumed : Target → Ident → Time → List RunRow → List RunRow
cancel_unless_resumed target id now runs =
    if resumes target
    then runs
    else update (queued_of_task id) (λ r. record r { status = cancelled; updated_at = now }) runs

-- `scheduled_runs_one_active_per_task`, which the taking up of a cancelled run may hit.
abbrev pub second_active : Option RunRow → Ident → List RunRow → Bool
second_active none id runs = false
second_active (some r) id runs = exists (active_run_of id) runs

unfoldable pub write_move :
    Target
    → Option Time
    → Option RunRow
    → Ident
    → Time
    → TaskRow
    → Option String
    → Database
    → Database × MutationResult
unfolding rebind_run
write_move target next_due_at rebound actor now t none db = (db, schedule_body_purged)
write_move target next_due_at rebound actor now t (some instruction) db =
    let move = moved_task target next_due_at (has_processing t.id db.runs) (is_some rebound) now in
    let runs = cancel_unless_resumed target t.id now db.runs in
    if second_active rebound t.id runs then (db, database_error) else (
      record db {
        tasks = update (task_is t.id) move db.tasks;
        revisions = db.revisions ++ revision_of (move t) actor instruction ∷ [];
        runs = rebind_run rebound (move t) instruction now runs;
      },
      updated (move t) none,
    )

abbrev pub is_future : Option Time → Time → Bool
is_future none clock = false
is_future (some due) clock = ltb clock due

-- A one-time task with no cancelled run is resumed for a future time only.
abbrev pub resumable : Target → TaskRow → Option Time → Option RunRow → Time → Bool
resumable target t next_due_at rebound clock =
    not (resumes target && is_once t.schedule) || (is_some rebound || is_future next_due_at clock)

unfoldable pub move_task :
    Target
    → Option Time
    → ℕ
    → Ident
    → Time
    → Time
    → Option TaskRow
    → Database
    → Database × MutationResult
unfolding write_move cancelled_once_run stored_instruction
move_task target next_due_at expected actor now clock none db = (db, not_found)
move_task target next_due_at expected actor now clock (some t) db =
    let rebound = cancelled_once_run target t db.runs in
    if t.current_version == expected
    then if is_over t.state || (resumes target && not (is_paused t.state))
      then (db, invalid_state t)
      else if resumable target t next_due_at rebound clock
      then write_move target next_due_at rebound actor now t (usable (stored_instruction db t)) db
      else (db, invalid_state t)
    else (db, version_conflict t)

unfoldable pub transition :
    Ident → ℕ → Ident → Target → Option Time → Time → Time → Database → Database × MutationResult
unfolding move_task
transition id expected actor target next_due_at now clock db =
    move_task target next_due_at expected actor now clock (find (task_is id) db.tasks) db

unfoldable pub pause : Ident → ℕ → Ident → Time → Time → Database → Database × MutationResult
unfolding transition
pause id expected actor now clock db = transition id expected actor to_paused none now clock db

unfoldable pub resume :
    Ident → ℕ → Ident → Time → Time → Time → Database → Database × MutationResult
unfolding transition
resume id expected actor next_due_at now clock db =
    transition id expected actor to_active (some next_due_at) now clock db

unfoldable pub delete : Ident → ℕ → Ident → Time → Time → Database → Database × MutationResult
unfolding transition
delete id expected actor now clock db = transition id expected actor to_deleted none now clock db
