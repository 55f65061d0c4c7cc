-- ===== src/Schedules/Change.antt =====
-- `update`: a new version of a task that is active or paused.
use minori.Common.{
  ℕ, ◌+◌, String, List, [], ◌∷◌, ◌++◌, Option, none, some, Bool, true, false, ◌&&◌, not, ltb, ◌==◌,
  if◌then◌else◌, or_default, or_else, sort_by, first,
}
use minori.Common.Table.{select, exists, find, update}
use minori.Domain.{Ident, Time, CalendarSchedule, ScheduleTarget, ScheduledContext, ScheduleState}
use minori.Database.{RunRow, TaskRow, RevisionRow, Database}
use minori.Runs.{task_is, revision_is, instruction_of, usable}
use minori.Runs.Finish.{queued_of_task}
use minori.Schedules.{
  MutationResult, updated, not_found, version_conflict, in_flight_update_requires_pause,
  invalid_state, schedule_body_purged, reserves, conflict_or_throw,
}

-- `scheduledContext?: ScheduledContext | null`
pub data ContextChange : Type 0 where
  keep clear : ContextChange
  bind : ScheduledContext → ContextChange

pub record ScheduleChanges : Type 0 where
  pub name : Option String
  pub instruction : Option String
  pub schedule : Option CalendarSchedule
  pub result_target : Option ScheduleTarget
  pub scheduled_context : ContextChange
  pub next_due_at : Option Time

abbrev pub changed_context : ContextChange → Option ScheduledContext → Option ScheduledContext
changed_context keep old = old
changed_context clear old = none
changed_context (bind c) old = some c

abbrev pub is_in_flight : ScheduleState → Bool
is_in_flight ScheduleState.in_flight = true
is_in_flight _ = false

abbrev pub is_over : ScheduleState → Bool
is_over ScheduleState.completed = true
is_over ScheduleState.deleted = true
is_over _ = false

abbrev pub changed_task : ScheduleChanges → Time → TaskRow → TaskRow
changed_task c now t = record t {
  name = or_default c.name t.name;
  current_version = t.current_version + 1;
  schedule = or_default c.schedule t.schedule;
  result_target = or_default c.result_target t.result_target;
  scheduled_context = changed_context c.scheduled_context t.scheduled_context;
  next_due_at = or_else c.next_due_at t.next_due_at;
  updated_at = now;
}

-- The revision row of a task at its current version.
abbrev pub revision_of : TaskRow → Ident → String → RevisionRow
revision_of t actor instruction = record {
  schedule_id = t.id;
  version = t.current_version;
  actor_open_id = actor;
  instruction = some instruction;
  schedule = t.schedule;
  result_target = t.result_target;
  scheduled_context = t.scheduled_context;
  body_purged_at = none;
}

-- `order by scheduled_for limit 1`
abbrev pub earlier_occurrence : RunRow → RunRow → Bool
earlier_occurrence a b = ltb a.scheduled_for b.scheduled_for

abbrev pub version_of_run : Option RunRow → Option ℕ
version_of_run none = none
version_of_run (some r) = some r.task_version

unfoldable pub queued_old_version : Ident → List RunRow → Option ℕ
queued_old_version id runs =
    version_of_run (first (sort_by earlier_occurrence (select (queued_of_task id) runs)))

-- The stored instruction, read as the join reads it.
unfoldable pub stored_instruction : Database → TaskRow → Option String
stored_instruction db t = instruction_of (find (revision_is t.id t.current_version) db.revisions)

-- The update collides with another row that reserves the name.
abbrev pub name_taken : (String → String) → TaskRow → TaskRow → Bool
name_taken lower next t =
    not (t.id == next.id) && (next.name_reserved && reserves lower next.name t)

unfoldable pub write_change :
    (String → String)
    → Ident
    → ScheduleChanges
    → Time
    → TaskRow
    → Option String
    → Database
    → Database × MutationResult
unfolding queued_old_version
write_change lower actor c now t none db = (db, schedule_body_purged)
write_change lower actor c now t (some instruction) db =
    let next = changed_task c now t in
    if exists (name_taken lower next) db.tasks
    then (db, conflict_or_throw (find (reserves lower (or_default c.name "")) db.tasks))
    else (
      record db {
        tasks = update (task_is t.id) (changed_task c now) db.tasks;
        revisions = db.revisions ++ revision_of next actor instruction ∷ [];
      },
      updated next (queued_old_version t.id db.runs),
    )

unfoldable pub change_task :
    (String → String)
    → ℕ
    → Ident
    → ScheduleChanges
    → Time
    → Option TaskRow
    → Database
    → Database × MutationResult
unfolding write_change stored_instruction
change_task lower expected actor c now none db = (db, not_found)
change_task lower expected actor c now (some t) db =
    if t.current_version == expected
    then if is_in_flight t.state
      then (db, in_flight_update_requires_pause t)
      else if is_over t.state
      then (db, invalid_state t)
      else write_change lower actor c now t
          (usable (or_else c.instruction (stored_instruction db t))) db
    else (db, version_conflict t)

unfoldable pub change :
    (String → String)
    → Ident
    → ℕ
    → Ident
    → ScheduleChanges
    → Time
    → Database
    → Database × MutationResult
unfolding change_task
change lower id expected actor c now db =
    change_task lower expected actor c now (find (task_is id) db.tasks) db
