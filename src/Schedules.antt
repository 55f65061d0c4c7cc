-- ===== src/Schedules.antt =====
-- The registry of scheduled tasks: `PostgresScheduleStore` of src/storage/schedule-store.ts.
-- Each mutating method is one transaction; one that throws is rolled back. The task that a result
-- carries is its row. `lower` is the database's `lower`, by which reserved names are unique.
pub mod Change
pub mod Transition
pub mod Purge
use text.Mathlib.Text.{◌==◌ as str_eq}
use minori.Common.{
  ℕ, ◌+◌, String, List, [], ◌∷◌, ◌++◌, Option, none, some, Bool, true, false, ◌&&◌, ◌||◌, ltb, leb,
  ◌==◌, if◌then◌else◌, or_default, is_some, opt_leb, sort_by, take,
}
use minori.Common.Table.{select, exists, find, update}
use minori.Domain.{
  Ident, Time, CalendarSchedule, ScheduleTarget, ScheduledContext, ScheduleState, active,
}
use minori.Database.{TaskRow, RevisionRow, Database}
use minori.Runs.{task_is, is_active_state}

pub record CreateScheduleInput : Type 0 where
  pub name : String
  pub creator_open_id : Ident
  pub actor_open_id : Ident
  pub origin : ScheduleTarget
  pub instruction : String
  pub schedule : CalendarSchedule
  pub result_target : ScheduleTarget
  pub scheduled_context : Option ScheduledContext
  pub next_due_at : Time

pub data MutationResult : Type 0 where
  created : TaskRow → MutationResult
  updated : TaskRow → Option ℕ → MutationResult
  not_found : MutationResult
  version_conflict name_conflict in_flight_update_requires_pause invalid_state :
      TaskRow → MutationResult
  schedule_body_purged : MutationResult
  database_error : MutationResult

unfoldable pub get : Ident → Database → Option TaskRow
get id db = find (task_is id) db.tasks

abbrev pub is_listed : ScheduleState → Bool
is_listed ScheduleState.active = true
is_listed ScheduleState.paused = true
is_listed ScheduleState.in_flight = true
is_listed _ = false

-- `order by created_at, id`
abbrev pub created_earlier : TaskRow → TaskRow → Bool
created_earlier a b =
    ltb a.created_at b.created_at || (a.created_at == b.created_at && ltb a.id b.id)

unfoldable pub list : Bool → Database → List TaskRow
list include_history db =
    sort_by created_earlier (select (λ t. include_history || is_listed t.state) db.tasks)

abbrev pub is_dispatchable : Time → TaskRow → Bool
is_dispatchable now t =
    is_active_state t.state && (opt_leb t.next_due_at now || is_some t.latest_missed_at)

-- `coalesce(latest_missed_at, next_due_at)`; a dispatchable task has one of the two.
abbrev pub dispatch_time : TaskRow → Time
dispatch_time t = or_default t.latest_missed_at (or_default t.next_due_at 0)

abbrev pub dispatch_earlier : TaskRow → TaskRow → Bool
dispatch_earlier a b =
    ltb (dispatch_time a) (dispatch_time b) || (dispatch_time a == dispatch_time b && ltb a.id b.id)

unfoldable pub list_dispatchable : Time → ℕ → Database → List TaskRow
list_dispatchable now limit db =
    take limit (sort_by dispatch_earlier (select (is_dispatchable now) db.tasks))

-- The rows that the partial unique index on `lower(name)` compares.
abbrev pub reserves : (String → String) → String → TaskRow → Bool
reserves lower name t = t.name_reserved && str_eq (lower t.name) (lower name)

unfoldable pub new_task : Ident → CreateScheduleInput → Time → TaskRow
new_task id input now = record {
  id = id;
  name = input.name;
  creator_open_id = input.creator_open_id;
  origin = input.origin;
  current_version = 1;
  schedule = input.schedule;
  result_target = input.result_target;
  scheduled_context = input.scheduled_context;
  state = active;
  name_reserved = true;
  next_due_at = some input.next_due_at;
  latest_missed_at = none;
  latest_run_status = none;
  completed_at = none;
  deleted_at = none;
  body_purged_at = none;
  created_at = now;
  updated_at = now;
}

unfoldable pub first_revision : Ident → CreateScheduleInput → RevisionRow
first_revision id input = record {
  schedule_id = id;
  version = 1;
  actor_open_id = input.actor_open_id;
  instruction = some input.instruction;
  schedule = input.schedule;
  result_target = input.result_target;
  scheduled_context = input.scheduled_context;
  body_purged_at = none;
}

abbrev pub conflict_or_throw : Option TaskRow → MutationResult
conflict_or_throw none = database_error
conflict_or_throw (some t) = name_conflict t

-- `id` is the default of the id column.
unfoldable pub create :
    (String → String) → Ident → CreateScheduleInput → Time → Database → Database × MutationResult
unfolding new_task first_revision
create lower id input now db =
    let task = new_task id input now in
    if exists (reserves lower input.name) db.tasks
    then (db, conflict_or_throw (find (reserves lower input.name) db.tasks))
    else (
      record db {
        tasks = db.tasks ++ task ∷ [];
        revisions = db.revisions ++ first_revision id input ∷ [];
      },
      created task,
    )
